-- ===== src/EndToEnd.antt =====
-- A thread of client.c and a handler of simple.c at the two ends of a connection: what the client
-- reads is what the server sends, and the other way round. The two run on machines of their own.
mod Tests
use mathlib.Core.Path.{subst}
use echo_server.Prelude.{
  ℕ, zero, suc, ◌+◌, ◌*◌, ◌^◌, ◌≤◌, ◌<◌, ◌≡◌, refl, sym, ap, ◌∙◌, List, [], ◌∷◌, ◌++◌, append_assoc,
  append-nil, ℤ, pos, length, length-append, length-drop, take, drop, drop-length_append,
  take-length_append, IsPrefix, arith,
}
use echo_server.Posix.{Os, Fd, Run, ok, exit, fault}
use echo_server.Posix.Laws.{SocketLaws, Reliable, Moved}
use echo_server.Posix.Ends.{Ends, ends}
use echo_server.Client.{Local}
use echo_server.Client.Handshake.{greeting}
use echo_server.Client.Session.{session, Sessioned, session-Ends}
use echo_server.Simple.{Progress, looping, returned, handle_conn}
use echo_server.Simple.Greet.{header}
use echo_server.Simple.Handler.{HandledSo, Handled, handle_conn-echoes}

-- The world in which a run has ended.
abbrev pub world_after : {W A : Type 0} → W → Run W A → W
world_after w (ok a v) = v
world_after w (exit status v) = v
world_after w fault = w

ended :
    {W A : Type 0} {P : A → W → Type 0} (w : W) {r : Run W A}
    → Ends P r
    → (a : A) × (r ≡ ok a (world_after w r)) × P a (world_after w r)
ended w (ends {a} p) = (a, refl, p)

IsPrefix-trans : (xs ys zs : List ℕ) → IsPrefix xs ys → IsPrefix ys zs → IsPrefix xs zs
IsPrefix-trans xs ys zs (r, e) (s, f) = (r ++ s, f ∙ ap (λ l. l ++ s) e ∙ append_assoc xs r s)

-- Prefixes of one list that are as long as each other are the same.
IsPrefix-same :
    (xs ys zs : List ℕ) → IsPrefix xs zs → IsPrefix ys zs → length xs ≡ length ys → xs ≡ ys
IsPrefix-same xs ys zs (r, e) (s, f) h =
    sym (take-length_append (length xs) xs r refl)
    ∙ ap (take (length xs)) (sym e ∙ f)
    ∙ take-length_append (length xs) ys s h

drop-IsPrefix : (n : ℕ) (xs r : List ℕ) → IsPrefix (drop n xs) (drop n (xs ++ r))
drop-IsPrefix zero xs r = (r, refl)
drop-IsPrefix (suc n) [] r = (drop (suc n) r, refl)
drop-IsPrefix (suc n) (x ∷ xs) r = drop-IsPrefix n xs r

IsPrefix-drop : (n : ℕ) (xs ys : List ℕ) → IsPrefix xs ys → IsPrefix (drop n xs) (drop n ys)
IsPrefix-drop n xs ys (r, e) =
    subst (λ l. IsPrefix (drop n xs) (drop n l)) (sym e) (drop-IsPrefix n xs r)

-- The server has sent a beginning of the header and of what it read behind the greeting.
sent-IsPrefix :
    (k m : ℕ) (p : Progress) (got sent : List ℕ)
    → HandledSo k m p got sent
    → IsPrefix sent (header m ++ drop 2 got)
sent-IsPrefix k m (looping buf) got sent (hello, body, e, two, out, size) = (
  [],
  ap (λ l. header m ++ l) (ap (drop 2) e ∙ drop-length_append 2 hello body (sym two))
      ∙ sym (append-nil (sent) ∙ out),
)
sent-IsPrefix k m returned got sent (front, near) = front

-- What lies behind the header, if the header is there whole.
behind_header :
    (m : ℕ) (xs ys : List ℕ)
    → IsPrefix xs (header m ++ ys)
    → 4 ≤ length xs
    → (xs ≡ header m ++ drop 4 xs) × IsPrefix (drop 4 xs) ys
behind_header m (a ∷ b ∷ c ∷ d ∷ xs) ys (r, e) h =
    (ap (λ l. take 4 l ++ xs) (sym e), (r, ap (drop 4) e))
behind_header m [] ys p h = absurd (omega arith)
behind_header m (a ∷ []) ys p h = absurd (omega arith)
behind_header m (a ∷ b ∷ []) ys p h = absurd (omega arith)
behind_header m (a ∷ b ∷ c ∷ []) ys p h = absurd (omega arith)

module _ {client server : Os} (claws : SocketLaws client) (slaws : SocketLaws server)
    (cfd sfd : Fd) where
  -- The client has learnt the message size, and has read back exactly the messages that it sent.
  pub record Returned (n m : ℕ) (w : client.World) (r : ℤ × Local) (w' : client.World)
      : Type 0 where
    pub size : r.0 ≡ pos m
    pub messages : List ℕ
    pub many : length messages ≡ n * m
    pub sent : claws.output cfd w' ≡ greeting ++ messages
    pub read : claws.input cfd w ≡ header m ++ (messages ++ claws.input cfd w')

  -- The two ends put together: `got` and `out` are what the server has read and sent.
  joined :
      (n k m : ℕ) (p : Progress) (got out rest : List ℕ) (good : Reliable claws cfd)
      (w : client.World) (r : ℤ × Local) (w' : client.World)
      → HandledSo k m p got out
      → claws.output cfd w ≡ []
      → claws.input cfd w ≡ out
      → claws.output cfd w' ≡ got ++ rest
      → 4 ≤ length out
      → Sessioned claws cfd good n m (drop 4 out) w r w'
      → Returned n m w r w'
  joined n k m p got out rest good w r w' handled new heard read long s =
      let (whole, behind) =
        behind_header m out (drop 2 got) (sent-IsPrefix k m p got out handled) long in
      let spoken : claws.output cfd w' ≡ greeting ++ s.sent =
        s.writes ∙ ap (λ l. l ++ (greeting ++ s.sent)) new in
      let back : s.got ≡ s.sent =
        IsPrefix-same s.got s.sent s.sent
          (IsPrefix-trans s.got (drop 4 out) s.sent (claws.input cfd w', s.reads)
            (IsPrefix-trans (drop 4 out) (drop 2 got) s.sent behind
              (IsPrefix-drop 2 got (greeting ++ s.sent) (rest, sym spoken ∙ read))))
          ([], sym (append-nil s.sent)) (s.gets ∙ sym s.sends) in
      record {
        size = s.size;
        messages = s.sent;
        many = s.sends;
        sent = spoken;
        read =
            heard
            ∙ whole
            ∙ ap (λ l. header m ++ l) (s.reads ∙ ap (λ l. l ++ claws.input cfd w') back);
      }

  -- Where a session of client.c (the handshake and n operations) and k rounds of handle_conn of
  -- simple.c run on the two ends of a new connection, so that what each reads is what the other
  -- sends, and the connection is in good order for the client, the message size m is at most
  -- 128, the buffers of both have 1024 bytes, and the server sends at least the header and n
  -- messages, the session of the client ends normally: it has learnt the size m, and behind the
  -- header it has read back exactly the n * m bytes that it sent behind its greeting.
  pub session-Returned :
      (n k m : ℕ) (stack buf : List ℕ) (t : Local) (w : client.World) (v : server.World)
      → Reliable claws cfd
      → m ≤ 128
      → 4 ≤ length stack
      → length t.buf ≡ 1024
      → length buf ≡ 1024
      → claws.output cfd w ≡ []
      → slaws.output sfd v ≡ []
      → claws.input cfd w ≡ slaws.output sfd (world_after v (handle_conn server k sfd buf m v))
      → slaws.input sfd v ≡ claws.output cfd (world_after w (session client n cfd stack t w))
      → 4 + n * m ≤ length (claws.input cfd w)
      → Ends (Returned n m w) (session client n cfd stack t w)
  session-Returned n k m stack buf t w v good small fits size room cnew snew from_server from_client
        enough =
      let (p, pe, h) = ended v (handle_conn-echoes slaws sfd k m buf v (omega arith) room) in
      let heard : claws.input cfd w ≡ h.sent =
        from_server ∙ h.moved.writes ∙ ap (λ l. l ++ h.sent) snew in
      let long : 4 + n * m ≤ length h.sent = omega (arith, ap length heard) in
      let (whole, behind) =
        behind_header m h.sent (drop 2 h.got) (sent-IsPrefix k m p h.got h.sent h.handled)
          (omega (arith, long)) in
      let (r, re, s) = ended w (
        session-Ends claws cfd good n m stack (drop 4 h.sent) t w small fits size (heard ∙ whole)
          (omega (arith, long, length-drop {0} 4 h.sent))) in
      subst (Ends (Returned n m w)) (sym re) (
        ends (
          joined n k m p h.got h.sent
            (slaws.input sfd (world_after v (handle_conn server k sfd buf m v))) good w r
            (world_after w (session client n cfd stack t w)) h.handled cnew heard
            (sym from_client ∙ h.moved.reads) (omega (arith, long)) s))
