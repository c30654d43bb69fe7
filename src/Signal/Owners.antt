-- ===== src/Signal/Owners.antt =====
-- Who changed: `pkgTypeOf`, `triggerTypeOf`, `encodeOwnerKey` and `decodeOwnerKey` of
-- backend/src/repo-manager/signal/plugin.ts, and `TriggerType` of
-- backend/src/interfaces/repo-manager.ts.
pub mod Keys
use chaotic_next.Base.{
  ℕ, Bool, true, false, List, [], ◌∷◌, Text, codes, starts_with, drop, decimal, read_decimal,
  if◌then◌else◌,
}

pub data TriggerType : Type 0 where
  arch chaotic : TriggerType

-- `ARCH_PKG_TYPE` and `CHAOTIC_PKG_TYPE`
pub data PkgType : Type 0 where
  arch_pkg chaotic_pkg : PkgType

unfoldable pub pkg_type_of : TriggerType → PkgType
pkg_type_of arch = arch_pkg
pkg_type_of chaotic = chaotic_pkg

unfoldable pub trigger_type_of : PkgType → TriggerType
trigger_type_of arch_pkg = arch
trigger_type_of chaotic_pkg = chaotic

abbrev owner_letter : TriggerType → ℕ
owner_letter arch = b'a'
owner_letter chaotic = b'c'

unfoldable pub encode_owner_key : TriggerType → ℕ → Text
encode_owner_key pkg_type pkg_id = owner_letter pkg_type ∷ decimal pkg_id

unfoldable pub decode_owner_key : Text → TriggerType × ℕ
unfolding starts_with
decode_owner_key key =
    (if starts_with (codes "a") key then arch else chaotic, read_decimal (drop 1 key))
