-- ===== src/Session/Stream.antt =====
-- The bytes that a session still has to send, as one stream: partial completions keep their order.
use mathlib.Core.List.{flatten}
use iocp_multi_threading_cha.Prelude.{
  ℕ, zero, suc, ◌+◌, ◌-◌, ◌≤◌, ◌<◌, ◌≡◌, refl, sym, ap, ◌∙◌, Bool, true, false, List, [], ◌∷◌, ◌++◌,
  append_assoc, ltb, leb, ◌==◌, if◌then◌else◌, Bool-cases, inl, inr, length, take, drop, drop-all,
  list_ext, get_elem?, get_elem?-drop, length-append, take-append-drop, arith,
}
use iocp_multi_threading_cha.Session.{
  Bytes, Session, Outcome, success, failed, Kernel, max_gather, wsa_io_pending,
  is_recoverable_error_code, after_wsa_send, gathered, register_send, consume, process_send,
}

-- What is not yet acknowledged: the batch in flight and the queue, from the partial offset on.
abbrev pub outgoing : Session → Bytes
outgoing s = drop s.send_offset (flatten (s.send_buffers ++ s.send_queue))

-- The partial offset lies in the first buffer.
abbrev pub Within : ℕ → List Bytes → Type 0
Within offset [] = offset ≡ 0
Within offset (b ∷ bs) = offset ≤ length b

pub drop-append_le : (n : ℕ) (b bs : Bytes) → n ≤ length b → drop n (b ++ bs) ≡ drop n b ++ bs
drop-append_le zero b bs h = refl
drop-append_le (suc n) [] bs h = absurd (omega arith)
drop-append_le (suc n) (x ∷ b) bs h = drop-append_le n b bs (omega arith)

pub drop-append_ge :
    (n : ℕ) (b bs : Bytes) → length b ≤ n → drop n (b ++ bs) ≡ drop (n - length b) bs
drop-append_ge n [] bs h = ap (λ k. drop k bs) (omega arith)
drop-append_ge zero (x ∷ b) bs h = absurd (omega arith)
drop-append_ge (suc n) (x ∷ b) bs h =
    drop-append_ge n b bs (omega arith) ∙ ap (λ k. drop k bs) (omega arith)

Within-zero : (bs : List Bytes) → Within 0 bs
Within-zero [] = refl
Within-zero (b ∷ bs) = omega arith

flatten-gathered :
    (offset : ℕ) (bs : List Bytes)
    → Within offset bs
    → flatten (gathered offset bs) ≡ drop offset (flatten bs)
unfolding flatten
flatten-gathered offset [] w = sym (drop-all offset [] (omega arith))
flatten-gathered offset (b ∷ bs) w = elim (Bool-cases (ltb 0 offset)) [
  | inl part ↦ rw part (sym (drop-append_le offset b (flatten bs) w))
  | inr whole ↦ let e : offset ≡ 0 = ground arith in rw (whole, e)
]

-- What the loop of `ProcessSend` keeps is what follows the first `n` bytes.
consume-drop :
    (bs : List Bytes) (offset n : ℕ)
    → Within offset bs
    → let (uncompleted, next) = consume bs offset n in
      (drop next (flatten uncompleted) ≡ drop (offset + n) (flatten bs)) × Within next uncompleted
unfolding consume flatten
consume-drop [] offset n w = (sym (drop-all (offset + n) [] (omega arith)), refl)
consume-drop (b ∷ bs) offset n w = elim (Bool-cases (leb (length b - offset) n)) [
  | inl done ↦
      let (same, within) = consume-drop bs 0 (n - (length b - offset)) (Within-zero bs) in
      rw done (
        same
            ∙ sym (
                drop-append_ge (offset + n) b (flatten bs) (ground arith)
                ∙ ap (λ k. drop k (flatten bs)) (ground arith)),
        within,
      )
  | inr part ↦ rw part (refl, ground arith)
]

drop-drop : (m n : ℕ) (xs : Bytes) → drop n (drop m xs) ≡ drop (m + n) xs
drop-drop m n xs = list_ext _ _ λ i.
    get_elem?-drop n (drop m xs) i
    ∙ get_elem?-drop m xs (n + i)
    ∙ ap (get_elem? xs) (add_assoc' m n i)
    ∙ sym (get_elem?-drop (m + n) xs i)
  where
    add_assoc' : (a b c : ℕ) → a + (b + c) ≡ a + b + c
    add_assoc' a b c = omega arith

pub flatten-append : (bs cs : List Bytes) → flatten (bs ++ cs) ≡ flatten bs ++ flatten cs
unfolding flatten
flatten-append [] cs = refl
flatten-append (b ∷ bs) cs = rw (flatten-append bs cs, append_assoc)

-- The partial offset does not reach past the batch.
pub Within-le : (offset : ℕ) (bs : List Bytes) → Within offset bs → offset ≤ length (flatten bs)
unfolding flatten
Within-le offset [] w = omega arith
Within-le offset (b ∷ bs) w = omega (arith, length-append b (flatten bs))

Within-append :
    (offset : ℕ) (bs cs : List Bytes) → 0 < length bs → Within offset bs → Within offset (bs ++ cs)
Within-append offset [] cs h w = absurd (omega arith)
Within-append offset (b ∷ bs) cs h w = w

-- `WSASend` has started, or will complete later.
abbrev pub accepts : Outcome → Bool
accepts success = true
accepts (failed code) = code == wsa_io_pending

pub after_wsa_send-accepts :
    (k : Kernel) (o : Outcome) (s : Session) → accepts o ≡ true → after_wsa_send k o s ≡ s
unfolding after_wsa_send is_recoverable_error_code
after_wsa_send-accepts k success s h = refl
after_wsa_send-accepts k (failed code) s h = rw h

-- The state of the sending half of a connected session: with no send in flight nothing waits.
pub record Sending (s : Session) : Type 0 where
  pub within : Within s.send_offset s.send_buffers
  pub idle : s.is_sending ≡ false → (s.send_buffers ≡ []) × (s.send_queue ≡ [])

-- What a call leaves: the stream `left`, of which it handed the part before the queue to `WSASend`. While
-- the session is sending, what it handed over is its batch, which is not empty, from the partial offset on, and the event
-- has its owner; where it is not, nothing is left.
pub record Sent (left : Bytes) (bufs : List Bytes) (s : Session) : Type 0 where
  pub stream : outgoing s ≡ left
  pub handed : s.is_sending ≡ true → flatten bufs ++ flatten s.send_queue ≡ left
  pub posted :
      s.is_sending ≡ true
      → (bufs ≡ gathered s.send_offset s.send_buffers)
        × (0 < length s.send_buffers)
        × (s.send_owner ≡ true)
  pub drained : s.is_sending ≡ false → left ≡ []
  pub online : s.connected ≡ true
  pub state : Sending s

register-queue :
    (k : Kernel) (s : Session) (queue : List Bytes)
    → s.send_queue ≡ queue
    → s.connected ≡ true
    → s.send_buffers ≡ []
    → Within s.send_offset queue
    → s.is_sending ≡ true
    → ((bufs : List Bytes) → accepts (k.wsa_send bufs) ≡ true)
    → let (bufs, s') = register_send k s in Sent (outgoing s) bufs s'
unfolding register_send flatten
register-queue k s [] e on empty w busy ok =
    rw (e, on, empty)
      (record {
        stream = refl;
        handed = λ h. cc h;
        posted = λ h. absurd (cc h);
        drained = λ _. drop-all s.send_offset [] (omega arith);
        online = refl;
        state = record { within = w; idle = λ _. (refl, refl) };
      })
register-queue k s (b ∷ bs) e on empty w busy ok =
    rw (e, nonempty, on, empty, after_wsa_send-accepts k _ _ (ok _))
      (record {
        stream = whole;
        handed = λ _. handed_first ∙ whole;
        posted = λ _. (refl, omega arith, refl);
        drained = λ h. absurd (cc (h, busy));
        online = refl;
        state = record { within = w; idle = λ h. cc };
      })
  where
    nonempty : (length (take max_gather (b ∷ bs)) == 0) ≡ false
    nonempty = ground arith

    batch : List Bytes
    batch = b ∷ take 63 bs

    rest : List Bytes
    rest = drop 63 bs

    whole : drop s.send_offset (flatten (batch ++ rest)) ≡ drop s.send_offset (flatten (b ∷ bs))
    whole = ap (λ l. drop s.send_offset (flatten l)) (take-append-drop max_gather (b ∷ bs))

    handed_first :
        flatten (gathered s.send_offset batch) ++ flatten rest
        ≡ drop s.send_offset (flatten (batch ++ rest))
    handed_first =
        ap (λ l. l ++ flatten rest) (flatten-gathered s.send_offset batch w)
        ∙ sym (
            drop-append_le s.send_offset (flatten batch) (flatten rest)
              (Within-le s.send_offset batch w))
        ∙ ap (drop s.send_offset) (sym (flatten-append batch rest))

drop-append_short : (n : ℕ) (xs ys : Bytes) → n ≤ length xs → drop n xs ++ ys ≡ drop n (xs ++ ys)
drop-append_short n xs ys h = sym (drop-append_le n xs ys h)

-- What the batch leaves and the queue are the stream past `n` bytes.
left-drop :
    (offset n : ℕ) (batch queue : List Bytes)
    → Within offset batch
    → n ≤ length (drop offset (flatten batch))
    → let (uncompleted, next) = consume batch offset n in
      drop next (flatten (uncompleted ++ queue)) ≡ drop n (drop offset (flatten (batch ++ queue)))
left-drop offset n batch queue w h =
    ap (drop next) (flatten-append uncompleted queue)
    ∙ (drop-append_le next (flatten uncompleted) (flatten queue)
        (Within-le next uncompleted within))
    ∙ ap (λ l. l ++ flatten queue) (same ∙ sym (drop-drop offset n (flatten batch)))
    ∙ drop-append_short n (drop offset (flatten batch)) (flatten queue) h
    ∙ ap (drop n) (
        drop-append_short offset (flatten batch) (flatten queue) (Within-le offset batch w)
        ∙ ap (drop offset) (sym (flatten-append batch queue)))
  where
    uncompleted : List Bytes
    uncompleted = (consume batch offset n).0

    next : ℕ
    next = (consume batch offset n).1

    same : drop next (flatten uncompleted) ≡ drop (offset + n) (flatten batch)
    same = (consume-drop batch offset n w).0

    within : Within next uncompleted
    within = (consume-drop batch offset n w).1

nil_of_length : (bs : List Bytes) → (length bs == 0) ≡ true → bs ≡ []
nil_of_length [] h = refl
nil_of_length (b ∷ bs) h = ground arith

module _ (k : Kernel) (s : Session) (ok : (bufs : List Bytes) → accepts (k.wsa_send bufs) ≡ true)
    (on : s.connected ≡ true) (busy : s.is_sending ≡ true) where
  -- `ProcessSend` after its loop, with what the loop leaves.
  resume-Sent :
      (uncompleted : List Bytes) (next : ℕ)
      → Within next uncompleted
      → let resumed = record s { send_owner = false; send_buffers = [] } in
        let (bufs, s') =
          if ltb 0 (length uncompleted)
          then register_send k
              (record resumed { send_queue = uncompleted ++ s.send_queue; send_offset = next })
          else if length s.send_queue == 0
          then ([], record resumed { send_offset = 0; is_sending = false })
          else register_send k (record resumed { send_offset = 0 }) in
        Sent (drop next (flatten (uncompleted ++ s.send_queue))) bufs s'
  unfolding flatten
  resume-Sent [] next w = elim (Bool-cases (length s.send_queue == 0)) [
    | inl drained ↦
        let empty : s.send_queue ≡ [] = nil_of_length s.send_queue drained in
        rw (drained, w)
          (record {
            stream = refl;
            handed = λ e. cc;
            posted = λ e. absurd (cc e);
            drained = λ _. rw (empty) refl;
            online = on;
            state = record { within = refl; idle = λ _. (refl, empty) };
          })
    | inr waiting ↦
        rw (waiting, w)
          (register-queue k (record s { send_owner = false; send_buffers = []; send_offset = 0 })
            s.send_queue refl on refl (Within-zero s.send_queue) busy ok)
  ]
  resume-Sent (b ∷ bs) next w = rw more (
      register-queue k
        (record s {
          send_owner = false;
          send_buffers = [];
          send_queue = b ∷ bs ++ s.send_queue;
          send_offset = next;
        })
        (b ∷ bs ++ s.send_queue) refl on refl w busy ok)
    where
      more : ltb 0 (suc (length bs)) ≡ true
      more = ground arith

-- On a connected session with a batch in flight, where every `WSASend` starts: a completion of `n`
-- bytes, one at least and no more than the batch has left, moves the stream on by exactly these
-- bytes, wherever in a buffer the kernel stopped. While anything is left the session is sending: the
-- next `WSASend` is handed at least one buffer, the start of what is left, exactly the batch from the
-- partial offset on, the event has its owner, and with the queue behind it this is the whole stream.
-- Where the session is not sending, nothing is left or waits. The session stays connected.
pub process_send-drop :
    (k : Kernel) (s : Session) (n : ℕ)
    → s.connected ≡ true
    → Sending s
    → s.is_sending ≡ true
    → ((bufs : List Bytes) → accepts (k.wsa_send bufs) ≡ true)
    → 0 < n
    → n ≤ length (drop s.send_offset (flatten s.send_buffers))
    → let (bufs, s') = process_send k s n in Sent (drop n (outgoing s)) bufs s'
unfolding process_send
process_send-drop k s n on v busy ok p h =
    rw (some', ← left-drop s.send_offset n s.send_buffers s.send_queue v.within h)
      (resume-Sent k s ok on busy (consume s.send_buffers s.send_offset n).0
        (consume s.send_buffers s.send_offset n).1
        (consume-drop s.send_buffers s.send_offset n v.within).1)
  where
    some' : (n == 0) ≡ false
    some' = ground arith
