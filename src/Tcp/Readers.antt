-- ===== src/Tcp/Readers.antt =====
-- The readers of the TCP server: who is registered, and what the queue has of whom.
use wire_rpc.Prelude.{
  suc, ◌≡◌, refl, String, string_eq, Bool, true, false, ◌&&◌, ◌||◌, not, some, List, [], ◌∷◌, ◌++◌,
  length, length-append, All, All-map, arith, ◌==◌, if_both,
}
use wire_rpc.Queue.{peer_eq, peer_beq_iff, Item, peer_of}
use wire_rpc.Queue.Invariant.{others}
use wire_rpc.Tcp.{Reader}

abbrev pub is_registered : String → List Reader → Bool
is_registered id [] = false
is_registered id (r ∷ readers) = r.registered && r.client_id == id || is_registered id readers

pub is_registered-split :
    (id : String) (before : List Reader) (r : Reader) (after : List Reader)
    → is_registered id (before ++ r ∷ after)
      ≡ (r.registered && r.client_id == id || is_registered id (before ++ after))
is_registered-split id [] r after = refl
is_registered-split id (b ∷ before) r after = ground (arith, is_registered-split id before r after)

-- An item of a registered reader.
abbrev pub IsTagged : List Reader → Item → Type 0
IsTagged readers item = (id : String) × (peer_of item ≡ some id) × (is_registered id readers ≡ true)

IsTagged-mono :
    (as' bs : List Reader) (items : List Item)
    → ((id : String) → is_registered id as' ≡ true → is_registered id bs ≡ true)
    → All (IsTagged as') items
    → All (IsTagged bs) items
IsTagged-mono as' bs items f =
    All-map (IsTagged as') (IsTagged bs) items (λ item (id, e, h). (id, e, f id h))

-- A reader that registers, or holds another frame, takes nothing away.
pub replace-IsTagged :
    (before : List Reader) (r s : Reader) (after : List Reader) (items : List Item)
    → r.client_id ≡ s.client_id
    → (r.registered ≡ true → s.registered ≡ true)
    → All (IsTagged (before ++ r ∷ after)) items
    → All (IsTagged (before ++ s ∷ after)) items
replace-IsTagged before r s after items same still =
    IsTagged-mono (before ++ r ∷ after) (before ++ s ∷ after) items (λ id h. ground (
      arith,
      h,
      same,
      still,
      is_registered-split id before r after,
      is_registered-split id before s after,
    ))

pub add-IsTagged :
    (r : Reader) (readers : List Reader) (items : List Item)
    → All (IsTagged readers) items
    → All (IsTagged (r ∷ readers)) items
add-IsTagged r readers items = IsTagged-mono readers (r ∷ readers) items (λ id h. ground (arith, h))

-- One that never registered leaves no item behind.
pub leave-IsTagged :
    (before : List Reader) (r : Reader) (after : List Reader) (items : List Item)
    → r.registered ≡ false
    → All (IsTagged (before ++ r ∷ after)) items
    → All (IsTagged (before ++ after)) items
leave-IsTagged before r after items never =
    IsTagged-mono (before ++ r ∷ after) (before ++ after) items
      (λ id h. ground (arith, h, never, is_registered-split id before r after))

-- One whose items are dropped.
pub drop-IsTagged :
    (before : List Reader) (r : Reader) (after : List Reader) (items : List Item)
    → All (IsTagged (before ++ r ∷ after)) items
    → All (IsTagged (before ++ after)) (others (some r.client_id) items)
drop-IsTagged before r after [] h = tt
drop-IsTagged before r after (item ∷ items) ((id, e, there), h) =
    if_both (All (IsTagged (before ++ after))) (not (peer_of item == some r.client_id))
      (λ other. (
        (
          id,
          e,
          ground (
            arith,
            there,
            other,
            is_registered-split id before r after,
            string_eq.beq_iff r.client_id id,
            peer_beq_iff (peer_of item) (some r.client_id),
            e,
          ),
        ),
        drop-IsTagged before r after items h,
      ))
      (λ own. drop-IsTagged before r after items h)

pub length-split :
    (before : List Reader) (r : Reader) (after : List Reader)
    → length (before ++ r ∷ after) ≡ suc (length (before ++ after))
length-split before r after =
    omega (arith, length-append before (r ∷ after), length-append before after)
