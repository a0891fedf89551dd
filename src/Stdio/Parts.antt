-- ===== src/Stdio/Parts.antt =====
-- What `_StdoutWriter` has written, of what it was given.
use mathlib.Core.Path.{subst}
use wire_rpc.Prelude.{
  ℕ, zero, suc, ◌≡◌, refl, ap, ◌∙◌, sym, Bool, true, false, Option, none, some, List, [], ◌∷◌, ◌++◌,
  append_assoc, append-nil, take, drop, Bool-cases, inl, inr,
}
use wire_rpc.Envelope.{Bytes}
use wire_rpc.Stdio.{Hand, Writer}

abbrev pub joined : List Bytes → Bytes
joined [] = []
joined (payload ∷ payloads) = payload ++ joined payloads

abbrev pub payloads_of : List (Option Bytes) → List Bytes
payloads_of [] = []
payloads_of (none ∷ items) = payloads_of items
payloads_of (some payload ∷ items) = payload ∷ payloads_of items

abbrev pub all_results : Bool → List Bytes → List Bool
all_results b [] = []
all_results b (payload ∷ payloads) = b ∷ all_results b payloads

abbrev pub held : Option Hand → List Bytes
held none = []
held (some h) = h.data_ ∷ []

-- How much of the data in hand was written.
abbrev pub InHand : Option Hand → Bytes → Type 0
InHand none part = part ≡ []
InHand (some h) part = part ++ h.view ≡ h.data_

-- What went wrong: nothing; or a part of the first one that failed was written, which is the first of
-- the lost ones or still in hand.
abbrev pub Partly : Bool → List Bytes → Option Hand → Bytes → Type 0
Partly false lost hand part = (lost ≡ []) × InHand hand part
Partly true lost hand part =
    (payload : Bytes) × (more : List Bytes) × (rest : Bytes) × (lost ++ held hand ≡ payload ∷ more)
    × (part ++ rest ≡ payload)

pub record IsFlushed (queue : List (Option Bytes)) (error : Bool) (hand : Option Hand)
    (posted settled : List Bool) (written : List Bytes) (output : Bytes) : Type 0 where
  pub fine : List Bytes
  pub lost : List Bytes
  pub part : Bytes
  pub order : written ≡ fine ++ (lost ++ (held hand ++ payloads_of queue))
  pub results : settled ++ posted ≡ all_results true fine ++ all_results false lost
  pub file : output ≡ joined fine ++ part
  pub failure : Partly error lost hand part

abbrev pub Flushed : Writer → Type 0
Flushed w = IsFlushed w.queue w.error w.hand w.posted w.settled w.written w.output

pub payloads_of-append :
    (xs ys : List (Option Bytes)) → payloads_of (xs ++ ys) ≡ payloads_of xs ++ payloads_of ys
payloads_of-append [] ys = refl
payloads_of-append (none ∷ xs) ys = payloads_of-append xs ys
payloads_of-append (some payload ∷ xs) ys = ap (λ l. payload ∷ l) (payloads_of-append xs ys)

pub all_results-append :
    (b : Bool) (xs ys : List Bytes)
    → all_results b (xs ++ ys) ≡ all_results b xs ++ all_results b ys
all_results-append b [] ys = refl
all_results-append b (x ∷ xs) ys = ap (λ l. b ∷ l) (all_results-append b xs ys)

pub joined-append : (xs ys : List Bytes) → joined (xs ++ ys) ≡ joined xs ++ joined ys
joined-append [] ys = refl
joined-append (x ∷ xs) ys =
    ap (λ l. x ++ l) (joined-append xs ys) ∙ sym (append_assoc x (joined xs) (joined ys))

pub take-drop : (n : ℕ) (xs : Bytes) → take n xs ++ drop n xs ≡ xs
take-drop zero xs = refl
take-drop (suc n) [] = refl
take-drop (suc n) (x ∷ xs) = ap (λ l. x ∷ l) (take-drop n xs)

pub append_more :
    {A : Type 0} (xs ys zs ws : List A) → (xs ++ (ys ++ zs)) ++ ws ≡ xs ++ (ys ++ (zs ++ ws))
append_more xs ys zs ws = append_assoc xs (ys ++ zs) ws ∙ ap (λ l. xs ++ l) (append_assoc ys zs ws)

-- The steps of the thread, for each value of the error.
module _ (b : Bool) (lost : List Bytes) (part : Bytes) where
  pub fine_of :
      (hand : Option Hand) → b ≡ false → Partly b lost hand part → (lost ≡ []) × InHand hand part
  fine_of hand e p = subst (λ x. Partly x lost hand part) e p

  pub Partly-fine :
      (lost' : List Bytes) (hand : Option Hand) (part' : Bytes)
      → b ≡ false
      → lost' ≡ []
      → InHand hand part'
      → Partly b lost' hand part'
  Partly-fine lost' hand part' e none_lost p =
      subst (λ x. Partly x lost' hand part') (sym e) (none_lost, p)

  pub Partly-take :
      (payload : Bytes)
      → Partly b lost none part
      → Partly b lost (some (record { data_ = payload; view = payload })) part
  Partly-take payload p = elim (Bool-cases b) [
    | inl e ↦
        (let (first, more, rest, is_lost, is_part) = subst (λ x. Partly x lost none part) e p in
          subst (λ x. Partly x lost (some (record { data_ = payload; view = payload })) part)
            (sym e)
            (
              first,
              more ++ payload ∷ [],
              rest,
              ap (λ l. l ++ payload ∷ []) (sym (append-nil lost) ∙ is_lost),
              is_part,
            ))
    | inr e ↦
        (let (none_lost, no_part) = fine_of none e p in
          Partly-fine lost (some (record { data_ = payload; view = payload })) part e none_lost
            (ap (λ l. l ++ payload) no_part))
  ]

  pub Partly-settle :
      (h : Hand)
      → b ≡ true
      → Partly b lost (some h) part
      → Partly b (lost ++ h.data_ ∷ []) none part
  Partly-settle h e p =
      let (first, more, rest, is_lost, is_part) = subst (λ x. Partly x lost (some h) part) e p in
      subst (λ x. Partly x (lost ++ h.data_ ∷ []) none part) (sym e)
        (first, more, rest, append-nil (lost ++ h.data_ ∷ []) ∙ is_lost, is_part)
