-- ===== src/Signal/Owners/Keys.antt =====
-- Owner keys, written and read.
use chaotic_next.Base.{ℕ, ◌≡◌, ap, sym, ◌∙◌}
use chaotic_next.Base.Decimal.{read_decimal-decimal}
use chaotic_next.Signal.Owners.{TriggerType, arch, chaotic, encode_owner_key, decode_owner_key}

-- `decodeOwnerKey(encodeOwnerKey(type, id))` is the type and the id.
pub decode_owner_key-encode_owner_key :
    (pkg_type : TriggerType) (pkg_id : ℕ)
    → decode_owner_key (encode_owner_key pkg_type pkg_id) ≡ (pkg_type, pkg_id)
unfolding decode_owner_key encode_owner_key
decode_owner_key-encode_owner_key arch pkg_id = rw (read_decimal-decimal pkg_id)
decode_owner_key-encode_owner_key chaotic pkg_id = rw (read_decimal-decimal pkg_id)

-- Owners with the same key are the same.
pub encode_owner_key-injective :
    (t u : TriggerType) (i j : ℕ) → encode_owner_key t i ≡ encode_owner_key u j → (t ≡ u) × (i ≡ j)
encode_owner_key-injective t u i j e =
    let same : ◌≡◌ {A = TriggerType × ℕ} (t, i) (u, j) =
      sym (decode_owner_key-encode_owner_key t i)
      ∙ ap decode_owner_key e
      ∙ decode_owner_key-encode_owner_key u j in
    (ap (λ p. p.0) same, ap (λ p. p.1) same)
