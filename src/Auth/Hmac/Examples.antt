-- ===== src/Auth/Hmac/Examples.antt =====
-- A handshake with a digest and a hash that only tell short texts apart.
use wire_rpc.Prelude.{
  ℕ, zero, suc, ◌≡◌, refl, ap, arith, String, string_eq, list_eq, nat_eq, true, false, Option, some,
  [], ◌∷◌, ◌++◌, length,
}
use wire_rpc.Prelude.Dict
use wire_rpc.Prelude.Dict.{Dict}
use wire_rpc.Envelope.{Bytes}
use wire_rpc.Frames.{ok, eof}
use wire_rpc.Auth.Hmac.{Key, verify, authenticate, revalidate}
use wire_rpc.Auth.Hmac.Proofs.{Judged, verify-Judged, IsHonest, handshake-Agrees, asked}

-- The first bytes, or zeros where there are no more.
unfoldable fill : ℕ → Bytes → Bytes
fill zero bytes = []
fill (suc n) [] = 0 ∷ fill n []
fill (suc n) (b ∷ bytes) = b ∷ fill n bytes

length-fill : (n : ℕ) (bytes : Bytes) → length (fill n bytes) ≡ n
unfolding fill
length-fill zero bytes = refl
length-fill (suc n) [] = ap suc (length-fill n [])
length-fill (suc n) (b ∷ bytes) = ap suc (length-fill n bytes)

abbrev digest : Bytes → Bytes → Bytes
digest secret message = fill 32 (secret ++ message)

abbrev sha256 : Bytes → Bytes
sha256 = fill 32

abbrev utf8 : Bytes → Option String
utf8 bytes = some "k1"

abbrev keys : Dict String Key
keys = ("k1", ("ann", 5 ∷ 6 ∷ [])) ∷ []

abbrev nonce : Bytes
nonce = fill 32 (3 ∷ 4 ∷ [])

found : Dict.get "k1" keys ≡ some ("ann", 5 ∷ 6 ∷ [])
unfolding Dict.get
found = refl

abbrev honest :
    IsHonest digest sha256 utf8 keys [] nonce eof (107 ∷ 49 ∷ []) (5 ∷ 6 ∷ []) "k1" "ann"
honest = record {
  decodes = refl;
  known = found;
  named = (omega arith, omega arith);
  sized = length-fill 32 (3 ∷ 4 ∷ []);
  digested = λ message. length-fill 32 ((5 ∷ 6 ∷ []) ++ message);
}

verify-Judged_example :
    Judged digest sha256 utf8 keys [] nonce eof
      (0 ∷ 0 ∷ 0 ∷ 1 ∷ 7 ∷ [])
      (verify digest sha256 utf8 keys [] true true nonce eof (0 ∷ 0 ∷ 0 ∷ 1 ∷ 7 ∷ []))
verify-Judged_example =
    verify-Judged digest sha256 utf8 keys [] nonce eof true true (0 ∷ 0 ∷ 0 ∷ 1 ∷ 7 ∷ [])

-- All that the client writes.
abbrev told : Bytes
told =
    asked digest sha256 utf8 keys [] nonce eof true true refl (107 ∷ 49 ∷ []) (5 ∷ 6 ∷ []) "k1"
      "ann" honest

handshake-Agrees_example :
    (authenticate digest sha256 utf8
        (107 ∷ 49 ∷ [])
        (5 ∷ 6 ∷ [])
        true
        true
        eof
        (verify digest sha256 utf8 keys [] true true nonce eof told).written
      ≡ (told, ok tt))
    × ((verify digest sha256 utf8 keys [] true true nonce eof told).principal ≡ some "ann")
    × ((verify digest sha256 utf8 keys [] true true nonce eof told).closed ≡ false)
    × (revalidate digest sha256 utf8 keys []
          (verify digest sha256 utf8 keys [] true true nonce eof told).verified
        ≡ some "ann")
handshake-Agrees_example =
    handshake-Agrees digest sha256 utf8 keys [] nonce eof true true refl (107 ∷ 49 ∷ [])
      (5 ∷ 6 ∷ []) "k1" "ann" honest

again : revalidate digest sha256 utf8 keys [] (some ("k1", sha256 (5 ∷ 6 ∷ []))) ≡ some "ann"
unfolding revalidate Dict.get fill
again = refl
