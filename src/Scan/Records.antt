-- ===== src/Scan/Records.antt =====
-- The rows that the rebuild triggers read: `ArchlinuxPackage` and `PackageElfAnalysis` of
-- backend/src/repo-manager/repo-manager.entity.ts, `Package` of
-- backend/src/builder/builder.entity.ts and `OwnerDescriptor` of
-- backend/src/interfaces/repo-manager.ts, with the columns that the triggers read. A timestamp is a
-- number, a `Record` an association list, and a `Set` a list.
use chaotic_next.Base.{
  ℕ, Bool, false, not, Option, none, some, List, [], Text, is_empty, is_some, or_else,
}
use chaotic_next.Signal.Versions.{release_version}
use chaotic_next.Signal.Owners.{PkgType, TriggerType, arch}
use chaotic_next.Signal.Broken.{Nodes}

pub record ArchlinuxPackage : Type 0 where
  pub id : ℕ
  pub pkgname : Text
  pub version : Option Text
  pub pkgrel : Option ℕ
  pub bump : ℕ
  pub previous_version : Option Text
  pub deactivated_at : Option ℕ

-- `metadata` holds `deps`, which may be left out.
pub record Package : Type 0 where
  pub id : ℕ
  pub pkgname : Text
  pub pkgbase_name : Option Text
  pub metadata : Option (Option (List Text))
  pub skip_signal_scan : Bool
  pub version : Option Text
  pub pkgrel : Option ℕ
  pub bump : ℕ

pub record PackageElfAnalysis : Type 0 where
  pub pkg_type : PkgType
  pub pkg_id : ℕ
  pub version : Text
  pub files : List Text
  pub needed_sonames : List Text
  pub provided_sonames : List Text
  pub imported_symbols : List Text
  pub exported_symbols : Nodes
  pub provided_version_nodes : Nodes
  pub needed_version_nodes : Nodes
  pub vtables : Nodes
  pub plugin_of : List Text
  pub broken : Bool
  pub broken_since : Option ℕ
  pub scanned_at : ℕ

pub record OwnerDescriptor : Type 0 where
  pub pkg_type : TriggerType
  pub pkg_id : ℕ
  pub pkgname : Text
  pub previous_version : Option Text
  pub current_version : Text

-- `if (text)` for a text that may be left out.
abbrev pub truthy : Option Text → Bool
truthy none = false
truthy (some text) = not (is_empty text)

unfoldable pub is_removed : ArchlinuxPackage → Bool
is_removed pkg = is_some pkg.deactivated_at

unfoldable pub arch_release : ArchlinuxPackage → Option Text
unfolding release_version
arch_release pkg =
    release_version (record { version = pkg.version; pkgrel = pkg.pkgrel; bump = some pkg.bump })

unfoldable pub package_release : Package → Option Text
unfolding release_version
package_release pkg =
    release_version (record { version = pkg.version; pkgrel = pkg.pkgrel; bump = some pkg.bump })

unfoldable pub to_owner_descriptor : ArchlinuxPackage → OwnerDescriptor
unfolding arch_release
to_owner_descriptor pkg = record {
  pkg_type = arch;
  pkg_id = pkg.id;
  pkgname = pkg.pkgname;
  previous_version = pkg.previous_version;
  current_version = or_else (arch_release pkg) [];
}

-- An Arch update or a Chaotic deployment.
pub data ChangedOwner : Type 0 where
  arch_owner : ArchlinuxPackage → ChangedOwner
  chaotic_owner : Package → ChangedOwner

abbrev pub owner_id : ChangedOwner → ℕ
owner_id (arch_owner pkg) = pkg.id
owner_id (chaotic_owner pkg) = pkg.id

abbrev pub owner_name : ChangedOwner → Text
owner_name (arch_owner pkg) = pkg.pkgname
owner_name (chaotic_owner pkg) = pkg.pkgname
