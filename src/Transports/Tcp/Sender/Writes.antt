-- ===== src/Transports/Tcp/Sender/Writes.antt =====
-- The sender of lc-lib/transports/tcp sends its messages whole and in order, up to where it ends.
use log_courier.Common.{
  ℕ, ◌≡◌, refl, sym, ap, ◌∙◌, true, false, List, [], ◌∷◌, ◌++◌, take, drop, take-append-drop,
  append_assoc, append-nil,
}
use log_courier.Transports.Tcp.Sender.{
  Attempt, wrote, timed_out, failed, Written, done, stopped, broken, waiting, taken, when_all,
  write_loop, write, Input, message, control, End, after_write, sender,
}

-- A write took the whole message if it is done, and else its start.
abbrev pub Takes : List ℕ → Written → Type 0
Takes text (done sent) = sent ≡ text
Takes text written = (rest : List ℕ) × (taken written ++ rest ≡ text)

split :
    (text sent left : List ℕ) (n : ℕ)
    → sent ++ left ≡ text
    → (sent ++ take n left) ++ drop n left ≡ text
split text sent left n e =
    append_assoc sent (take n left) (drop n left) ∙ ap (◌++◌ sent) (take-append-drop n left) ∙ e

when_all-Takes :
    (text sent left : List ℕ) (next : Written)
    → sent ++ left ≡ text
    → Takes text next
    → Takes text (when_all left (done sent) next) × Takes text (when_all left (stopped sent) next)
unfolding when_all
when_all-Takes text sent [] next e h = (sym (append-nil sent) ∙ e, ([], e))
when_all-Takes text sent (b ∷ left) next e h = (h, h)

write_loop-Takes :
    (text sent left : List ℕ) (attempts : List Attempt)
    → sent ++ left ≡ text
    → Takes text (write_loop sent left attempts)
unfolding write_loop
write_loop-Takes text sent left [] e = (left, e)
write_loop-Takes text sent left (wrote n ∷ attempts) e =
    let q = split text sent left n e in
    (when_all-Takes text (sent ++ take n left) (drop n left) _ q
      (write_loop-Takes text (sent ++ take n left) (drop n left) attempts q)).0
write_loop-Takes text sent left (timed_out n true ∷ attempts) e =
    let q = split text sent left n e in
    (when_all-Takes text (sent ++ take n left) (drop n left) (stopped (sent ++ take n left)) q
      (drop n left, q)).1
write_loop-Takes text sent left (timed_out n false ∷ attempts) e =
    let q = split text sent left n e in
    (when_all-Takes text (sent ++ take n left) (drop n left) _ q
      (write_loop-Takes text (sent ++ take n left) (drop n left) attempts q)).1
write_loop-Takes text sent left (failed n ∷ attempts) e = (drop n left, split text sent left n e)

-- The messages of the inputs, up to the shutdown.
unfoldable pub texts : List Input → List ℕ
texts [] = []
texts (control ∷ inputs) = []
texts (message text attempts ∷ inputs) = text ++ texts inputs

after_write-Takes :
    (text more : List ℕ) (written : Written) (next : List ℕ × End)
    → Takes text written
    → (rest : List ℕ) × (next.0 ++ rest ≡ more)
    → (rest : List ℕ) × ((after_write written next).0 ++ rest ≡ text ++ more)
unfolding after_write
after_write-Takes text more (done sent) (out, end) e (rest, q) =
    (rest, append_assoc sent out rest ∙ ap (◌++◌ sent) q ∙ ap (λ x. x ++ more) e)
after_write-Takes text more (stopped sent) next (r, e) q =
    (r ++ more, sym (append_assoc sent r more) ∙ ap (λ x. x ++ more) e)
after_write-Takes text more (broken sent) next (r, e) q =
    (r ++ more, sym (append_assoc sent r more) ∙ ap (λ x. x ++ more) e)
after_write-Takes text more (waiting sent) next (r, e) q =
    (r ++ more, sym (append_assoc sent r more) ∙ ap (λ x. x ++ more) e)

-- However the socket takes the messages, in pieces, with timeouts, up to an error or a shutdown,
-- what it took is the start of the messages that were queued, one after the other: no byte is
-- missing in between, and none is sent twice.
pub sender-texts :
    (inputs : List Input) → (rest : List ℕ) × ((sender inputs).0 ++ rest ≡ texts inputs)
unfolding sender texts write
sender-texts [] = ([], refl)
sender-texts (control ∷ inputs) = ([], refl)
sender-texts (message text attempts ∷ inputs) =
    after_write-Takes text (texts inputs) (write_loop [] text attempts) (sender inputs)
      (write_loop-Takes text [] text attempts refl) (sender-texts inputs)
