-- ===== src/Config/Valid.antt =====
-- What holds of a configuration that `Load` accepts.
use delegatd.Prelude.{
  ◌≡◌, ◌≢◌, refl, ap, sym, subst, inl, inr, true, false, not, List, [], ◌∷◌, GoString, codes, GoMap,
  lookup, keys, contains, is_some, In, contains-In, sort_strings, In-sort_strings, some, pos,
  int_eqb, int_eq_of_eqb, Result, ok, err, ok_injective, >>=-eq-ok, Bool-cases,
}
use delegatd.Domain.Task.{PolicyRequest}
use delegatd.Memory.{guard}
use delegatd.Memory.Snapshots.{guard-true}
use delegatd.Policy.Request.{normalize_request}
use delegatd.Config.Yaml.{
  Node, is_mapping, mapping_value, contains_alias, contains_environment_interpolation, Read, fault,
  value, root_of, check_tail, decode_single_document, decode, yaml_invalid, node, document_node,
  sequence_node, mapping_node, scalar_node, alias_node, leaf, child, Tail, at_end, another, broken,
}
use delegatd.Config.Checks.{
  Instance, Resource, Config, is_instance_name, validate_instance, kind_of, check_instances,
  validate_instances, check_resource, check_resources, validate_resources,
}
use delegatd.Config.Load.{
  YamlPackage, File, Document, read_root, has_instances, validate_config, load, invalidated,
}

-- Every instance has a good name and a good kind.
abbrev pub AllNamed : GoMap Instance → Type 0
AllNamed instances =
    (name : GoString) (i : Instance)
    → lookup name instances ≡ some i
    → (is_instance_name name ≡ true) × (is_instance_name i.kind ≡ true)

-- Every resource has a good name and kind, and a connector that is there.
abbrev pub AllBound : GoMap Instance → GoMap Resource → Type 0
AllBound connectors resources =
    (name : GoString) (r : Resource)
    → lookup name resources ≡ some r
    → (is_instance_name name ≡ true)
      × (is_instance_name r.kind ≡ true)
      × (is_instance_name r.connector ≡ true)
      × (contains r.connector connectors ≡ true)
      × (is_mapping r.config ≡ true)

instance-kind :
    (section kind : GoString) {u : Unit {0}}
    → validate_instance section kind ≡ ok u
    → is_instance_name kind ≡ true
unfolding validate_instance
instance-kind section kind h = guard-true (is_instance_name kind) _ h

In-sorted_keys :
    {V : Type 0} (name : GoString) (v : V) (m : GoMap V)
    → lookup name m ≡ some v
    → In name (sort_strings (keys m))
In-sorted_keys name v m h = (In-sort_strings name (keys m)).1 (contains-In name m (ap is_some h))

check_instances-named :
    (section prefix : GoString) (instances : GoMap Instance) (names : List GoString) {u : Unit {0}}
    → check_instances section prefix instances names ≡ ok u
    → (name : GoString) → In name names
    → (is_instance_name name ≡ true) × (is_instance_name (kind_of (lookup name instances)) ≡ true)
unfolding check_instances
check_instances-named section prefix instances [] h name i = elim i [ ]
check_instances-named section prefix instances (n ∷ names) h name i =
    let (u1, h1, k1) = >>=-eq-ok (guard (is_instance_name n) _) _ h in
    let (u2, h2, k2) = >>=-eq-ok (validate_instance _ (kind_of (lookup n instances))) _ k1 in
    elim i [
      | inl e ↦
          subst
            (λ x.
              (is_instance_name x ≡ true)
              × (is_instance_name (kind_of (lookup x instances)) ≡ true))
            (sym e) (guard-true (is_instance_name n) _ h1, instance-kind _ _ h2)
      | inr later ↦ check_instances-named section prefix instances names k2 name later
    ]

validate_instances-AllNamed :
    (section prefix : GoString) (instances : GoMap Instance) {u : Unit {0}}
    → validate_instances section prefix instances ≡ ok u
    → AllNamed instances
unfolding validate_instances
validate_instances-AllNamed section prefix instances h name i there =
    let (good, kind) =
      check_instances-named section prefix instances (sort_strings (keys instances)) h name
        (In-sorted_keys name i instances there) in
    (good, subst (λ o. is_instance_name (kind_of o) ≡ true) there kind)

check_resource-bound :
    (connectors : GoMap Instance) (name : GoString) (r : Resource) {u : Unit {0}}
    → check_resource connectors name (some r) ≡ ok u
    → (is_instance_name name ≡ true)
      × (is_instance_name r.kind ≡ true)
      × (is_instance_name r.connector ≡ true)
      × (contains r.connector connectors ≡ true)
      × (is_mapping r.config ≡ true)
unfolding check_resource
check_resource-bound connectors name r h =
    let (u1, h1, k1) = >>=-eq-ok (guard (is_instance_name name) _) _ h in
    let (u2, h2, k2) = >>=-eq-ok (guard (is_instance_name r.kind) _) _ k1 in
    let (u3, h3, k3) = >>=-eq-ok (guard (is_instance_name r.connector) _) _ k2 in
    let (u4, h4, k4) = >>=-eq-ok (guard (contains r.connector connectors) _) _ k3 in
    (
      guard-true (is_instance_name name) _ h1,
      guard-true (is_instance_name r.kind) _ h2,
      guard-true (is_instance_name r.connector) _ h3,
      guard-true (contains r.connector connectors) _ h4,
      guard-true (is_mapping r.config) _ k4,
    )

check_resources-passed :
    (connectors : GoMap Instance) (resources : GoMap Resource) (names : List GoString)
    {u : Unit {0}}
    → check_resources connectors resources names ≡ ok u
    → (name : GoString) → In name names
    → check_resource connectors name (lookup name resources) ≡ ok tt
unfolding check_resources
check_resources-passed connectors resources [] h name i = elim i [ ]
check_resources-passed connectors resources (n ∷ names) h name i =
    let (u1, h1, k1) = >>=-eq-ok (check_resource connectors n (lookup n resources)) _ h in
    elim i [
      | inl e ↦ subst (λ x. check_resource connectors x (lookup x resources) ≡ ok tt) (sym e) h1
      | inr later ↦ check_resources-passed connectors resources names k1 name later
    ]

validate_resources-AllBound :
    (c : Config) {u : Unit {0}} → validate_resources c ≡ ok u → AllBound c.connectors c.resources
unfolding validate_resources
validate_resources-AllBound c h name r there = check_resource-bound c.connectors name r (
    subst (λ o. check_resource c.connectors name o ≡ ok tt) there
      (check_resources-passed c.connectors c.resources (sort_strings (keys c.resources)) h name
        (In-sorted_keys name r c.resources there)))

pub record IsValidConfig (c : Config) : Type 0 where
  pub version_one : c.version ≡ pos 1
  pub good_store : is_instance_name c.store.kind ≡ true
  pub some_connector : c.connectors ≢ []
  pub some_provider : c.workspace_providers ≢ []
  pub some_runtime : c.agent_runtimes ≢ []
  pub connectors_named : AllNamed c.connectors
  pub providers_named : AllNamed c.workspace_providers
  pub runtimes_named : AllNamed c.agent_runtimes
  pub resources_bound : AllBound c.connectors c.resources
  pub normal_policy : (raw : PolicyRequest) × (normalize_request raw ≡ ok c.policy)

has_instances-full :
    (root : Node) (section : GoString) (instances : GoMap Instance) {u : Unit {0}}
    → has_instances root section instances ≡ ok u
    → instances ≢ []
has_instances-full root section [] h =
    let (u1, h1, k1) = >>=-eq-ok (guard (is_some (mapping_value root section)) _) _ h in λ e. cc k1
has_instances-full root section (i ∷ instances) h = λ e. cc e

invalidated-ok {ℓ} :
    {A : Type ℓ} (reason : GoString) (m : Result A) {a : A} → invalidated reason m ≡ ok a → m ≡ ok a
invalidated-ok reason (ok a) h = h
invalidated-ok reason (err e) h = cc

validate_config-IsValidConfig :
    (root : Node) (c d : Config) → validate_config root c ≡ ok d → IsValidConfig d
unfolding validate_config
validate_config-IsValidConfig root c d h =
    let (u1, h1, k1) = >>=-eq-ok (guard (int_eqb c.version (pos 1)) _) _ h in
    let (u2, h2, k2) = >>=-eq-ok (guard (is_some (mapping_value root _)) _) _ k1 in
    let (u3, h3, k3) = >>=-eq-ok (has_instances root (codes "connectors") c.connectors) _ k2 in
    let (u4, h4, k4) =
      >>=-eq-ok (has_instances root (codes "workspace_providers") c.workspace_providers) _ k3 in
    let (u5, h5, k5) =
      >>=-eq-ok (has_instances root (codes "agent_runtimes") c.agent_runtimes) _ k4 in
    let (u6, h6, k6) = >>=-eq-ok (validate_instance (codes "store") c.store.kind) _ k5 in
    let (u7, h7, k7) =
      >>=-eq-ok (validate_instances (codes "connectors") (codes "connector") c.connectors) _ k6 in
    let (u8, h8, k8) =
      >>=-eq-ok
        (validate_instances (codes "workspace_providers") (codes "workspace_provider")
          c.workspace_providers)
        _ k7 in
    let (u9, h9, k9) =
      >>=-eq-ok
        (validate_instances (codes "agent_runtimes") (codes "agent_runtime") c.agent_runtimes) _
        k8 in
    let (p, h10, k10) = >>=-eq-ok (invalidated yaml_invalid (normalize_request c.policy)) _ k9 in
    let (u11, h11, k11) = >>=-eq-ok (validate_resources (record c { policy = p })) _ k10 in
    subst IsValidConfig (ok_injective k11) (record {
      version_one = int_eq_of_eqb c.version (pos 1) (guard-true (int_eqb c.version (pos 1)) _ h1);
      good_store = instance-kind _ c.store.kind h6;
      some_connector = has_instances-full root _ c.connectors h3;
      some_provider = has_instances-full root _ c.workspace_providers h4;
      some_runtime = has_instances-full root _ c.agent_runtimes h5;
      connectors_named = validate_instances-AllNamed _ _ c.connectors h7;
      providers_named = validate_instances-AllNamed _ _ c.workspace_providers h8;
      runtimes_named = validate_instances-AllNamed _ _ c.agent_runtimes h9;
      resources_bound = validate_resources-AllBound (record c { policy = p }) h11;
      normal_policy = (c.policy, invalidated-ok yaml_invalid _ h10);
    })

-- A configuration that `Load` returns has version 1, at least one connector, workspace provider and
-- agent runtime, good names and kinds of all instances and resources, only connectors of resources
-- that it has itself, and a policy that `NormalizeRequest` made.
pub load-IsValidConfig :
    (yaml : YamlPackage) (file : File) (d : Document)
    → load yaml file ≡ ok d
    → IsValidConfig d.config
unfolding load
load-IsValidConfig yaml file d h =
    let (r, h1, k1) = >>=-eq-ok (read_root yaml file true) _ h in
    let (u2, h2, k2) = >>=-eq-ok (guard (not (contains_environment_interpolation r.root)) _) _ k1 in
    let (c, h3, k3) =
      >>=-eq-ok (invalidated yaml_invalid (decode yaml.marshal yaml.as_config r.root)) _ k2 in
    let (config, h4, k4) = >>=-eq-ok (validate_config r.root c) _ k3 in
    subst (λ (x : Document). IsValidConfig x.config) (ok_injective k4)
      (validate_config-IsValidConfig r.root c config h4)

root_of-mapping : (n : Node) {root : Node} → root_of n ≡ ok root → is_mapping root ≡ true
unfolding root_of
root_of-mapping (node document_node t v (child n leaf)) h = elim (Bool-cases (is_mapping n)) [
  | inl y ↦ subst (λ x. is_mapping x ≡ true) (ok_injective (rw y at h)) y
  | inr no_map ↦ cc (rw no_map at h)
]
root_of-mapping (node document_node t v leaf) h = cc
root_of-mapping (node document_node t v (child n (child m c))) h = cc
root_of-mapping (node sequence_node t v c) h = cc
root_of-mapping (node mapping_node t v c) h = cc
root_of-mapping (node scalar_node t v c) h = cc
root_of-mapping (node alias_node t v c) h = cc

check_tail-ok :
    (t : Tail) (n : Node) {root : Node} → check_tail t n ≡ ok root → (t ≡ at_end) × (n ≡ root)
unfolding check_tail
check_tail-ok at_end n h = (refl, ok_injective h)
check_tail-ok another n h = cc
check_tail-ok (broken e) n h = cc

-- What `decodeSingleDocument` accepts, when aliases are rejected, is one document, and its root is
-- a mapping with no alias at any depth.
pub decode_single_document-lacks :
    (r : Read Node) (root : Node)
    → decode_single_document true r ≡ ok root
    → ((document : Node) × (r ≡ value document at_end))
      × (is_mapping root ≡ true)
      × (contains_alias root ≡ false)
unfolding decode_single_document
decode_single_document-lacks (fault e) root h = cc
decode_single_document-lacks (value document tail) root h =
    let (n, h1, k1) = >>=-eq-ok (root_of document) _ h in
    elim (Bool-cases (contains_alias n)) [
      | inl y ↦ cc (rw y at k1)
      | inr lacks ↦
          let (ended, same) = check_tail-ok tail n (rw lacks at k1) in
          (
            (document, ap (value document) ended),
            subst (λ x. is_mapping x ≡ true) same (root_of-mapping document h1),
            subst (λ x. contains_alias x ≡ false) same lacks,
          )
    ]
