-- ===== src/Stream/Drained.antt =====
-- What is sent reaches the device, if the device goes on taking bytes.
use qtjsondb.Prelude.{
  ℕ, zero, suc, ◌≤◌, ◌≡◌, refl, sym, ap, ◌∙◌, List, [], ◌∷◌, ◌++◌, Option, none, some, length, take,
  drop, map, arith, append_nil,
}
use qtjsondb.Qt.Calls.{QtCalls}
use qtjsondb.Stream.{
  JsonStream, Event, bytes_written, write_data, device_bytes_written, on_event, run_events,
}
use qtjsondb.Stream.Written.{all_bytes, sent_bytes, NoSendFails, all_bytes-run_events}

-- The replies in which the device takes a byte.
abbrev pub takings : List (Option ℕ) → ℕ
takings [] = 0
takings (none ∷ replies) = takings replies
takings (some zero ∷ replies) = takings replies
takings (some (suc n) ∷ replies) = suc (takings replies)

length-drop {ℓ} : {A : Type ℓ} (n : ℕ) (xs : List A) → length (drop n xs) ≤ length xs
length-drop zero xs = omega arith
length-drop (suc n) [] = omega arith
length-drop (suc n) (x ∷ xs) = omega (arith, length-drop n xs)

-- The events in which the device reports that it wrote.
abbrev pub reports : List (Option ℕ) → List Event
reports replies = map bytes_written replies

run_events-append :
    (q : QtCalls) (st : JsonStream) (a b : List Event)
    → run_events q st (a ++ b) ≡ run_events q (run_events q st a) b
unfolding run_events
run_events-append q st [] b = refl
run_events-append q st (e ∷ a) b = run_events-append q (on_event q st e) a b

NoSendFails-reports : (replies : List (Option ℕ)) → NoSendFails (reports replies)
NoSendFails-reports [] = tt
NoSendFails-reports (reply ∷ replies) = NoSendFails-reports replies

sent_bytes-reports : (q : QtCalls) (replies : List (Option ℕ)) → sent_bytes q (reports replies) ≡ []
sent_bytes-reports q [] = refl
sent_bytes-reports q (reply ∷ replies) = sent_bytes-reports q replies

drained :
    (q : QtCalls) (buffer taken : List ℕ) (replies : List (Option ℕ))
    → length buffer ≤ takings replies
    → (run_events q
        (record { write_buffer = buffer; taken = taken })
        (reports replies)).write_buffer
      ≡ []
unfolding run_events on_event device_bytes_written write_data
drained q [] taken [] h = refl
drained q (b ∷ bs) taken [] h = absurd (omega arith)
drained q [] taken (reply ∷ replies) h = drained q [] taken replies (omega arith)
drained q (b ∷ bs) taken (none ∷ replies) h = drained q (b ∷ bs) taken replies h
drained q (b ∷ bs) taken (some zero ∷ replies) h = drained q (b ∷ bs) (taken ++ []) replies h
drained q (b ∷ bs) taken (some (suc n) ∷ replies) h =
    drained q (drop n bs) (taken ++ b ∷ take n bs) replies (omega (arith, length-drop n bs))

all_bytes-reports :
    (q : QtCalls) (st : JsonStream) (replies : List (Option ℕ))
    → all_bytes (run_events q st (reports replies)) ≡ all_bytes st
all_bytes-reports q st replies =
    all_bytes-run_events q st (reports replies) (NoSendFails-reports replies)
    ∙ ap (◌++◌ (all_bytes st)) (sent_bytes-reports q replies)
    ∙ append_nil (all_bytes st)

-- Let objects be sent and written bytes reported, and no write of a sent object fail. If the
-- device then reports written bytes, and takes a byte or more in as many of its replies as there
-- are bytes in the buffer, whatever its other replies are, then the buffer is empty, and the
-- device has taken what it had, the buffer there was, and the bytes of all objects that were
-- sent, in order.
pub taken-run_events :
    (q : QtCalls) (st : JsonStream) (events : List Event) (replies : List (Option ℕ))
    → NoSendFails events
    → length (run_events q st events).write_buffer ≤ takings replies
    → let after = run_events q st (events ++ reports replies) in
      (after.write_buffer ≡ []) × (after.taken ≡ all_bytes st ++ sent_bytes q events)
taken-run_events q st events replies sound enough =
    let between = run_events q st events in
    let empty = drained q between.write_buffer between.taken replies enough in
    let all = all_bytes-reports q between replies in
    rw (run_events-append q st events (reports replies)) (
      empty,
      sym (append_nil (run_events q between (reports replies)).taken)
          ∙ ap (◌++◌ (run_events q between (reports replies)).taken) (sym empty)
          ∙ all
          ∙ all_bytes-run_events q st events sound,
    )
