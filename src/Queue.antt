-- ===== src/Queue.antt =====
-- wire_rpc/transports/_queue.py: `PayloadQueue`, the byte and peer bounded queue between the
-- transports and the apps. A coroutine is modelled by its attempt, the code between two waits:
-- `put` and `get` either finish, raise, or clear the event and sleep on it (`waiting`). The child
-- Tasks runs the attempts of many tasks against one queue.
pub mod Invariant
pub mod Items
pub mod Order
pub mod Tasks
mod Examples
use wire_rpc.Prelude.{
  ℕ, zero, suc, ◌+◌, ◌-◌, ◌≡◌, String, Bool, true, false, ◌&&◌, not, Option, none, some, List, [],
  ◌∷◌, ◌++◌, length, ltb, leb, ◌==◌, if◌then◌else◌, PyEq, option_beq, option_beq_iff, string_eq,
  nat_eq, ◌↔◌,
}
use wire_rpc.Prelude.Dict
use wire_rpc.Prelude.Dict.{Dict}

abbrev pub Bytes : Type 0
Bytes = List ℕ

-- `str | None`: the peer of a tagged item, and `None` for plain bytes.
abbrev pub Peer : Type 0
Peer = Option String

unfoldable pub peer_beq : Peer → Peer → Bool
peer_beq = option_beq

pub peer_beq_iff : (p r : Peer) → (peer_beq p r ≡ true) ↔ (p ≡ r)
unfolding peer_beq
peer_beq_iff = option_beq_iff

instance abbrev pub peer_eq : PyEq Peer
peer_eq = record { beq = peer_beq; beq_iff = peer_beq_iff }

-- T: bytes | tuple[str, bytes]
pub data Item : Type 0 where
  plain : Bytes → Item
  tagged : String → Bytes → Item

-- `_parts`
abbrev pub parts : Item → Peer × Bytes
parts (plain payload) = (none, payload)
parts (tagged peer payload) = (some peer, payload)

abbrev pub peer_of : Item → Peer
peer_of item = (parts item).0

abbrev pub size_of : Item → ℕ
size_of item = length (parts item).1

pub data Error : Type 0 where
  connection_error value_error : Error

pub record Queue : Type 0 where
  pub maxsize : ℕ
  pub max_bytes : ℕ
  pub per_peer : ℕ
  pub items : List Item
  pub bytes : ℕ
  pub counts : Dict Peer ℕ
  pub changed : Bool
  pub closed : Bool

-- `positive_limit` on each of the three limits; bools and other types are not of type ℕ here.
unfoldable pub new : ℕ → ℕ → ℕ → Option Queue
new maxsize max_bytes per_peer =
    if leb maxsize 0
    then none
    else if leb max_bytes 0
    then none
    else if leb per_peer 0
    then none
    else some (record {
      maxsize = maxsize;
      max_bytes = max_bytes;
      per_peer = per_peer;
      items = [];
      bytes = 0;
      counts = [];
      changed = false;
      closed = false;
    })

-- Counter: `counts[peer]` is 0 at a peer that is not there.
abbrev pub or_zero : Option ℕ → ℕ
or_zero none = 0
or_zero (some n) = n

unfoldable pub count_of : Peer → Dict Peer ℕ → ℕ
count_of p d = or_zero (Dict.get p d)

-- The three limits that `put` tests.
abbrev pub has_room : Queue → Peer → ℕ → Bool
has_room q peer size =
    ltb (length q.items) q.maxsize
    && leb (q.bytes + size) q.max_bytes
    && ltb (count_of peer q.counts) q.per_peer

-- How one attempt of a coroutine ends.
pub data Attempt (A : Type 0) : Type 0 where
  finished : A → Attempt A
  raised : Error → Attempt A
  waiting : Attempt A

-- The body of `while True` in `put`.
unfoldable pub put_attempt : Item → Queue → Attempt Unit × Queue
put_attempt item q =
    let peer = peer_of item in
    let size = size_of item in
    if q.closed
    then (raised connection_error, q)
    else if has_room q peer size
    then (
      finished tt,
      record q {
        items = q.items ++ item ∷ [];
        bytes = q.bytes + size;
        counts = Dict.put peer (count_of peer q.counts + 1) q.counts;
        changed = true;
      },
    )
    else (waiting, record q { changed = false })

-- The first attempt of `put` comes after the test of the payload alone.
unfoldable pub put : Item → Queue → Attempt Unit × Queue
unfolding put_attempt
put item q = if ltb q.max_bytes (size_of item) then (raised value_error, q) else put_attempt item q

-- `counts[peer] -= 1`, and the entry goes when it is 0.
unfoldable pub release : Peer → Dict Peer ℕ → Dict Peer ℕ
release peer d =
    if count_of peer d - 1 == 0 then Dict.pop peer d else Dict.put peer (count_of peer d - 1) d

-- `popleft` and the accounts, on an open queue.
get_items : List Item → Queue → Attempt Item × Queue
get_items [] q = (waiting, record q { changed = false })
get_items (item ∷ rest) q = (
  finished item,
  record q {
    items = rest;
    bytes = q.bytes - size_of item;
    counts = release (peer_of item) q.counts;
    changed = true;
  },
)

-- The body of `while True` in `get`; `get` does nothing before it.
unfoldable pub get : Queue → Attempt Item × Queue
unfolding get_items
get q = if q.closed then (raised connection_error, q) else get_items q.items q

-- The loop of `drop_peer`: what stays, and the byte count left.
unfoldable pub drop_items : Peer → List Item → ℕ → List Item × ℕ
drop_items peer [] bytes = ([], bytes)
drop_items peer (item ∷ rest) bytes =
    let gone = peer_of item == peer in
    let (kept, left) = drop_items peer rest (if gone then bytes - size_of item else bytes) in
    (if gone then kept else item ∷ kept, left)

unfoldable pub drop_peer : Peer → Queue → Queue
drop_peer peer q =
    let (kept, left) = drop_items peer q.items q.bytes in
    record q { items = kept; bytes = left; counts = Dict.pop peer q.counts; changed = true }

unfoldable pub close : Queue → Queue
close q = record q { items = []; bytes = 0; counts = []; changed = true; closed = true }
