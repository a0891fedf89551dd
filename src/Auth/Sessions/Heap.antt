-- ===== src/Auth/Sessions/Heap.antt =====
-- The heap of `_expiry`: the least expiry first, and nothing lost by a push.
use mathlib.Core.List.{Memᴰ}
use mathlib.Core.Path.{subst, sym}
use wire_rpc.Prelude.{ℕ, ◌+◌, ◌≤◌, ◌≡◌, refl, List, [], ◌∷◌, length, All, arith, leb, if_both}
use wire_rpc.Auth.Sessions.{Due, heappush, heapify}

abbrev pub AtLeast : ℕ → List Due → Type 0
AtLeast n = All (λ (x : Due). n ≤ x.0)

abbrev pub IsSorted : List Due → Type 0
IsSorted [] = Unit
IsSorted (x ∷ xs) = AtLeast x.0 xs × IsSorted xs

AtLeast-mono : (m n : ℕ) (xs : List Due) → m ≤ n → AtLeast n xs → AtLeast m xs
AtLeast-mono m n [] h a = tt
AtLeast-mono m n (x ∷ xs) h a = (omega (arith, a.0), AtLeast-mono m n xs h a.1)

heappush-AtLeast :
    (n : ℕ) (x : Due) (xs : List Due) → n ≤ x.0 → AtLeast n xs → AtLeast n (heappush x xs)
unfolding heappush
heappush-AtLeast n x [] h a = (h, tt)
heappush-AtLeast n x (y ∷ ys) h a =
    if_both (AtLeast n) (leb x.0 y.0) (λ _. (h, a)) (λ _. (a.0, heappush-AtLeast n x ys h a.1))

pub heappush-IsSorted : (x : Due) (xs : List Due) → IsSorted xs → IsSorted (heappush x xs)
unfolding heappush
heappush-IsSorted x [] s = (tt, tt)
heappush-IsSorted x (y ∷ ys) s =
    if_both IsSorted (leb x.0 y.0)
      (λ le. ((ground (arith, le), AtLeast-mono x.0 y.0 ys (ground (arith, le)) s.0), s))
      (λ gt. (heappush-AtLeast y.0 x ys (ground (arith, gt)) s.0, heappush-IsSorted x ys s.1))

pub heapify-IsSorted : (xs : List Due) → IsSorted (heapify xs)
unfolding heapify
heapify-IsSorted [] = tt
heapify-IsSorted (x ∷ xs) = heappush-IsSorted x (heapify xs) (heapify-IsSorted xs)

pub length-heappush : (x : Due) (xs : List Due) → length (heappush x xs) ≡ length xs + 1
unfolding heappush
length-heappush x [] = omega arith
length-heappush x (y ∷ ys) = ground (arith, length-heappush x ys)

pub length-heapify : (xs : List Due) → length (heapify xs) ≡ length xs
unfolding heapify
length-heapify [] = refl
length-heapify (x ∷ xs) = omega (arith, length-heappush x (heapify xs), length-heapify xs)

pub mem-heappush_self : (x : Due) (xs : List Due) → Memᴰ x (heappush x xs)
unfolding heappush
mem-heappush_self x [] = Memᴰ.head refl
mem-heappush_self x (y ∷ ys) =
    if_both (Memᴰ x) (leb x.0 y.0) (λ _. Memᴰ.head refl) (λ _. Memᴰ.tail (mem-heappush_self x ys))

pub mem-heappush : (x y : Due) (xs : List Due) → Memᴰ y xs → Memᴰ y (heappush x xs)
unfolding heappush
mem-heappush x y [] m = elim m [ ]
mem-heappush x y (z ∷ zs) (Memᴰ.head e) =
    if_both (Memᴰ y) (leb x.0 z.0) (λ _. Memᴰ.tail (Memᴰ.head e)) (λ _. Memᴰ.head e)
mem-heappush x y (z ∷ zs) (Memᴰ.tail m) =
    if_both (Memᴰ y) (leb x.0 z.0) (λ _. Memᴰ.tail (Memᴰ.tail m))
      (λ _. Memᴰ.tail (mem-heappush x y zs m))

pub mem-heapify : (y : Due) (xs : List Due) → Memᴰ y xs → Memᴰ y (heapify xs)
unfolding heapify
mem-heapify y (x ∷ xs) (Memᴰ.head e) =
    subst (λ (z : Due). Memᴰ z (heappush x (heapify xs))) (sym e) (mem-heappush_self x (heapify xs))
mem-heapify y (x ∷ xs) (Memᴰ.tail m) = mem-heappush x y (heapify xs) (mem-heapify y xs m)
mem-heapify y [] m = elim m [ ]
