-- ===== src/Stdio/Flushed.antt =====
-- The order of the writes of `_StdoutWriter`, and what `drain` waits for.
use wire_rpc.Prelude.{
  ℕ, zero, suc, ◌≡◌, ◌≢◌, refl, ap, ◌∙◌, sym, Bool, true, false, Option, none, some, List, [], ◌∷◌,
  ◌++◌, append_assoc, append-nil, take, arith,
}
use wire_rpc.Envelope.{Bytes}
use wire_rpc.Stdio.{Writer, new, returned, result_at, conclude, drain, Reach}
use wire_rpc.Stdio.Parts.{joined, payloads_of, all_results, held, Flushed}
use wire_rpc.Stdio.Keeps.{Reach-Flushed_from}

result_at-append :
    (n : ℕ) (xs ys : List Bool) → result_at n xs ≡ some true → result_at n (xs ++ ys) ≡ some true
result_at-append n [] ys e = absurd (ground (arith, e))
result_at-append zero (x ∷ xs) ys e = e
result_at-append (suc n) (x ∷ xs) ys e = result_at-append n xs ys e

result_at-lost : (n : ℕ) (lost : List Bytes) → result_at n (all_results false lost) ≢ some true
result_at-lost n [] e = ground (arith, e)
result_at-lost zero (x ∷ lost) e = ground (arith, e)
result_at-lost (suc n) (x ∷ lost) e = result_at-lost n lost e

-- The bytes begin with these.
abbrev pub BeginsWith : Bytes → Bytes → Type 0
BeginsWith first bytes = (rest : Bytes) × (bytes ≡ first ++ rest)

joined-BeginsWith :
    (n : ℕ) (fine lost others : List Bytes) (part : Bytes)
    → result_at n (all_results true fine ++ all_results false lost) ≡ some true
    → BeginsWith (joined (take (suc n) (fine ++ others))) (joined fine ++ part)
joined-BeginsWith n [] lost others part e = absurd (result_at-lost n lost e)
joined-BeginsWith zero (x ∷ fine) lost others part e = (
  joined fine ++ part,
  append_assoc x (joined fine) part ∙ ap (λ l. l ++ (joined fine ++ part)) (sym (append-nil x)),
)
joined-BeginsWith (suc n) (x ∷ fine) lost others part e =
    let (rest, same) = joined-BeginsWith n fine lost others part e in
    (
      rest,
      append_assoc x (joined fine) part
          ∙ ap (λ l. x ++ l) same
          ∙ sym (append_assoc x (joined (take (suc n) (fine ++ others))) rest),
    )

-- The file has the data of the write with this number and of those before it.
abbrev pub IsOut : ℕ → Writer → Type 0
IsOut n w = BeginsWith (joined (take (suc n) w.written)) w.output

result_at-IsOut : (n : ℕ) (w : Writer) → Flushed w → result_at n w.settled ≡ some true → IsOut n w
result_at-IsOut n w v e =
    let others = v.lost ++ (held w.hand ++ payloads_of w.queue) in
    let (rest, same) =
      joined-BeginsWith n v.fine v.lost others v.part
        (ap (result_at n) (sym v.results) ∙ result_at-append n w.settled w.posted e) in
    (rest, v.file ∙ same ∙ ap (λ l. joined (take (suc n) l) ++ rest) (sym v.order))

conclude-returned : (o : Option Bool) (w : Writer) → (conclude o w).0 ≡ returned → o ≡ some true
conclude-returned none w e = absurd (ground (arith, e))
conclude-returned (some true) w e = refl
conclude-returned (some false) w e = absurd (ground (arith, e))

-- In every state that a new writer reaches, between any two steps of its thread, the data of the writes
-- that returned is, in their order, that whose result is fine, that whose result is an error, that which
-- the thread has in hand, and that which is queued. The file has the first of these, all of it and in
-- this order, and after it the bytes that `os.write` took of the data in hand, or of the first data that
-- failed. A `drain` that returns after it waited for a write finds the data of that write, and of all
-- before it, in the file.
pub Reach-Flushed :
    {w : Writer} → Reach new w → Flushed w × ((n : ℕ) → (drain (some n) w).0 ≡ returned → IsOut n w)
unfolding drain
Reach-Flushed {w} r =
    let v = Reach-Flushed_from r (record {
      fine = [];
      lost = [];
      part = [];
      order = refl;
      results = refl;
      file = refl;
      failure = (refl, refl);
    }) in
    (v, λ n e. result_at-IsOut n w v (conclude-returned (result_at n w.settled) w e))
