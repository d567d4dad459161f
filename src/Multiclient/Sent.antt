-- ===== src/Multiclient/Sent.antt =====
-- multiclient.c and dsync.c: what it means that a report, or a count, was sent and accepted.
use echo_server.Prelude.{◌≡◌, refl, ℕ, Option, none, some}
use echo_server.Posix.{Run, ok, exit, Cmd, pure, quit, failed, and_then}
use echo_server.Redis.{
  Text, reported, results, append, incrby, Reply, integer, string, array, other, RedisOs, command,
}
use echo_server.Dsync.{dcounter_incr}
use echo_server.Multiclient.{put_report, to_int64}

module _ (redis : RedisOs) where
  open redis use {sys, redis_command, print_long}
  open sys.os use {World}

  -- What `put_report` does with the reply, and with the text.
  abbrev accept : Reply → Cmd World (Unit {0})
  accept r = elim r [ integer _ ↦ pure tt | _ ↦ quit failed ]

  abbrev accepted : (Reply → Cmd World (Unit {0})) → Option Reply × World → Run World (Unit {0})
  accepted then p = and_then (elim p.0 [ none ↦ exit failed p.1 | some r ↦ ok r p.1 ]) then

  accept-ok : (r : Reply) (v w' : World) → accept r v ≡ ok tt w' → w' ≡ v
  accept-ok (integer n) v w' h = cc
  accept-ok (string t) v w' h = cc
  accept-ok (array es) v w' h = cc
  accept-ok other v w' h = cc

  accepted-ok :
      (then : Reply → Cmd World (Unit {0}))
      → ((r : Reply) (v w' : World) → then r v ≡ ok tt w' → w' ≡ v)
      → (o : Option Reply) (v w' : World) → accepted then (o, v) ≡ ok tt w'
      → w' ≡ v
  accepted-ok then ends none v w' h = cc
  accepted-ok then ends (some r) v w' h = ends r v w' h

  abbrev sending : Option Text → Cmd World (Unit {0})
  sending o = elim o [
    | none ↦ quit failed
    | some shown ↦ λ w. accepted accept (redis_command (append results shown) w)
  ]

  sending-ok :
      (o : Option Text) (w w' : World)
      → sending o w ≡ ok tt w'
      → (shown : Text) × (o ≡ some shown) × (w' ≡ (redis_command (append results shown) w).1)
  sending-ok none w w' h = cc
  sending-ok (some shown) w w' h =
      let sent = redis_command (append results shown) w in
      (shown, refl, accepted-ok accept accept-ok sent.0 sent.1 w' h)

  pub put_report-ok :
      (x : ℕ) (w w' : World)
      → put_report redis x w ≡ ok tt w'
      → (shown : Text) × (print_long (to_int64 x) ≡ some shown)
        × (w' ≡ (redis_command (append results shown) w).1)
  unfolding put_report command
  put_report-ok x w w' h = sending-ok (print_long (to_int64 x)) w w' h

  pub dcounter_incr-ok :
      (w w' : World)
      → dcounter_incr redis reported 1 w ≡ ok tt w'
      → w' ≡ (redis_command (incrby reported 1) w).1
  unfolding dcounter_incr command
  dcounter_incr-ok w w' h =
      let sent = redis_command (incrby reported 1) w in
      accepted-ok (λ r. pure tt) (λ r v w'. λ e. cc) sent.0 sent.1 w' h
