-- ===== src/Scan/Releases/Causes.antt =====
-- What a trigger of a new release rests on.
use mathlib.Core.List.{Memᴰ}
use mathlib.Core.Option.{some-injective, none-ne-some}
use chaotic_next.Base.{
  ◌≡◌, refl, sym, Bool, true, false, ◌&&◌, Option, none, some, List, [], ◌∷◌, Text, text_eq, nat_eq,
  has, is_empty, find, find-mem, mem-has,
}
use chaotic_next.Base.Map.{get}
use chaotic_next.Base.MultiMap.{entry}
use chaotic_next.Base.Search.{first_some-mem, skipped-some, option_map-some}
use chaotic_next.Base.Members.{keep-mem}
use chaotic_next.Signal.Owners.{arch, encode_owner_key}
use chaotic_next.Scan.Records.{ArchlinuxPackage, Package, PackageElfAnalysis}
use chaotic_next.Scan.Attribution.{provides_library_family}
use chaotic_next.Scan.Triggers.{DetectedTrigger, Analyses}
use chaotic_next.Scan.Releases.{
  is_release_change, changed_strict_owners, plugins_of, is_owner_of, strict_owner_trigger,
  strict_trigger_of, strict_owner_trigger_for, PrivateApiProvider, PrivateApiProviders,
  private_api_trigger, node_trigger, provider_trigger, soname_trigger, private_trigger_in,
  private_api_trigger_for,
}

-- A changed strict owner with a new release, of which an output is a plugin.
pub record StrictCause (outputs : List Package) (analyses : Analyses)
    (changed : List ArchlinuxPackage) (strict : List Text) (t : DetectedTrigger) : Type 0 where
  pub output : Package
  pub owner : ArchlinuxPackage
  pub listed : Memᴰ output outputs
  pub is_changed : Memᴰ owner changed
  pub is_strict : has owner.pkgname strict ≡ true
  pub is_new : is_release_change owner ≡ true
  pub is_plugin : has (encode_owner_key arch owner.id) (plugins_of (get output.id analyses)) ≡ true
  pub trigger : t ≡ strict_owner_trigger owner

both : (a b : Bool) → (a && b) ≡ true → (a ≡ true) × (b ≡ true)
both true b h = (refl, h)
both false b h = cc

-- A trigger of a strict owner has its cause: a changed package among the strict owners, with a new
-- release, of which an output is a plugin.
pub strict_owner_trigger_for-StrictCause :
    (outputs : List Package) (analyses : Analyses) (changed : List ArchlinuxPackage)
    (strict : List Text) {t : DetectedTrigger}
    → strict_owner_trigger_for outputs analyses (changed_strict_owners changed strict) ≡ some t
    → StrictCause outputs analyses changed strict t
unfolding strict_owner_trigger_for strict_trigger_of changed_strict_owners
strict_owner_trigger_for-StrictCause outputs analyses changed strict e =
    let (output, (listed, h)) =
      first_some-mem (strict_trigger_of analyses (changed_strict_owners changed strict)) outputs
        e in
    let (owner, (found, same)) =
      option_map-some _
        (find (is_owner_of (plugins_of (get output.id analyses)))
          (changed_strict_owners changed strict))
        h in
    let (m, plugin) = find-mem _ (changed_strict_owners changed strict) found in
    let (in_changed, ok) =
      keep-mem (λ (pkg : ArchlinuxPackage). has pkg.pkgname strict && is_release_change pkg) changed
        m in
    record {
      output = output;
      owner = owner;
      listed = listed;
      is_changed = in_changed;
      is_strict = (both _ _ ok).0;
      is_new = (both _ _ ok).1;
      is_plugin = plugin;
      trigger = sym same;
    }

-- An output with an analysis needs a private node of a registered provider, and does not ship the
-- library itself.
pub record PrivateCause (outputs : List Package) (analyses : Analyses)
    (providers : PrivateApiProviders) (t : DetectedTrigger) : Type 0 where
  pub output : Package
  pub analysis : PackageElfAnalysis
  pub soname : Text
  pub nodes : List Text
  pub provider : PrivateApiProvider
  pub node : Text
  pub listed : Memᴰ output outputs
  pub analyzed : get output.id analyses ≡ some analysis
  pub needs : Memᴰ (soname, nodes) analysis.needed_version_nodes
  pub foreign : provides_library_family analysis soname ≡ false
  pub registered : Memᴰ provider (entry soname providers)
  pub needed : has node nodes ≡ true
  pub is_private : has node provider.private_nodes ≡ true
  pub trigger : t ≡ private_api_trigger provider.owner soname node

node_trigger-cases :
    (owner : ArchlinuxPackage) (soname : Text) (found : Option Text) {t : DetectedTrigger}
    → node_trigger owner soname found ≡ some t
    → (node : Text) × ((found ≡ some node) × (private_api_trigger owner soname node ≡ t))
node_trigger-cases owner soname none e = absurd (none-ne-some _ e)
node_trigger-cases owner soname (some []) e = absurd (none-ne-some _ e)
node_trigger-cases owner soname (some (c ∷ cs)) e = (c ∷ cs, (refl, some-injective _ _ e))

private_trigger_in-cause :
    (outputs : List Package) (analyses : Analyses) (providers : PrivateApiProviders)
    (output : Package) (found : Option PackageElfAnalysis) {t : DetectedTrigger}
    → Memᴰ output outputs
    → get output.id analyses ≡ found
    → private_trigger_in providers found ≡ some t
    → PrivateCause outputs analyses providers t
unfolding soname_trigger provider_trigger
private_trigger_in-cause outputs analyses providers output none listed here e =
    absurd (none-ne-some _ e)
private_trigger_in-cause outputs analyses providers output (some analysis) listed here e =
    let ((soname, nodes), (needs, h)) =
      first_some-mem (soname_trigger analysis providers) analysis.needed_version_nodes e in
    let (foreign, h') = skipped-some (provides_library_family analysis soname) _ h in
    let (provider, (registered, h'')) =
      first_some-mem (provider_trigger soname nodes) (entry soname providers) h' in
    let (node, (found, same)) =
      node_trigger-cases provider.owner soname (find (λ n. has n provider.private_nodes) nodes)
        h'' in
    let (m, private) = find-mem _ nodes found in
    record {
      output = output;
      analysis = analysis;
      soname = soname;
      nodes = nodes;
      provider = provider;
      node = node;
      listed = listed;
      analyzed = here;
      needs = needs;
      foreign = foreign;
      registered = registered;
      needed = mem-has node nodes m;
      is_private = private;
      trigger = sym same;
    }

-- A trigger of a private interface has its cause: an output with an analysis that needs a private
-- node of a registered provider, and that does not ship the library itself.
pub private_api_trigger_for-PrivateCause :
    (outputs : List Package) (analyses : Analyses) (providers : PrivateApiProviders)
    {t : DetectedTrigger}
    → private_api_trigger_for outputs analyses providers ≡ some t
    → PrivateCause outputs analyses providers t
unfolding private_api_trigger_for
private_api_trigger_for-PrivateCause outputs analyses providers e =
    let (some_provider, e') = skipped-some (is_empty providers) _ e in
    let (output, (listed, h)) =
      first_some-mem (λ (o : Package). private_trigger_in providers (get o.id analyses)) outputs
        e' in
    private_trigger_in-cause outputs analyses providers output (get output.id analyses) listed refl
      h
