-- ===== src/Cgroup/CssData.antt =====
-- internal/pod/container_css_default.go: the table of subsystem states that user space keeps from the
-- events of bpf/cgroup_css_events.c and bpf/cgroup_css_gather.c.
use jidick.Base.{
  ℕ, suc, ◌≡◌, refl, arith, ◌==◌, leb, ◌&&◌, ◌||◌, not, Bool, true, false, if◌then◌else◌, is_some,
  Option, none, some, List, [], ◌∷◌, ◌++◌, length, replicate, Bool-cases, Option-cases, inl, inr,
  ap, ◌∙◌,
}
use jidick.Cgroup.{
  CgroupPerfEvent, Cgroup, ProbeReadStr, bpf_cgroup_mkdir_prog, bpf_cgroup_rmdir_prog,
}
use jidick.Cgroup.Names.{mkdir-rmdir-reports}

-- `[^a-zA-Z0-9]+` matches a name with any other character.
unfoldable is_alnum : ℕ → Bool
is_alnum c = (leb 48 c && leb c 57) || (leb 65 c && leb c 90) || (leb 97 c && leb c 122)

unfoldable pub is_valid_knode_name : List ℕ → Bool
unfolding is_alnum
is_valid_knode_name [] = true
is_valid_knode_name (c ∷ cs) = is_alnum c && is_valid_knode_name cs

-- `strings.TrimRight(name, "\x00")`
unfoldable keep : ℕ → List ℕ → List ℕ
keep c [] = if c == 0 then [] else c ∷ []
keep c (d ∷ ds) = c ∷ d ∷ ds

unfoldable pub trim_right : List ℕ → List ℕ
unfolding keep
trim_right [] = []
trim_right (c ∷ cs) = keep c (trim_right cs)

-- A name of letters and digits comes back from its array, without the NULs.
trim_right-append :
    (name : List ℕ) → is_valid_knode_name name ≡ true → trim_right (name ++ replicate 2 0) ≡ name
unfolding trim_right keep is_valid_knode_name is_alnum replicate
trim_right-append [] valid = refl
trim_right-append (c ∷ []) valid = ground arith
trim_right-append (c ∷ d ∷ cs) valid = ap (keep c) (trim_right-append (d ∷ cs) (ground arith))

-- `containerCssMetaData`
pub record ContainerCssMetaData : Type 0 where
  pub css : ℕ
  pub sub_sys : List ℕ
  pub cgroup : ℕ
  pub cgroup_root : ℕ
  pub cgroup_level : ℕ
  pub container_id : List ℕ

-- `cgroupCssMetaDataMap`
abbrev pub CssTable : Type 0
CssTable = ℕ → Option ContainerCssMetaData

abbrev pub put : ℕ → Option ContainerCssMetaData → CssTable → CssTable
put css v t n = if n == css then v else t n

-- The container that the table has for a subsystem state.
abbrev pub container_of : CssTable → ℕ → Option (List ℕ)
container_of t css = elim (t css) [ none ↦ none | some m ↦ some m.container_id ]

-- `cgroupCssID2SubSysNameMap`: the names of the subsystems by their place.
module _ (sub_sys_name : ℕ → Option (List ℕ)) where
  -- One round of the loop of `cgroupUpdateOrCreateCssData`, and the loop.
  unfoldable store_one : CgroupPerfEvent → List ℕ → ℕ → ℕ → CssTable → CssTable
  store_one event knode_name index css t = if css == 0 then t else elim (sub_sys_name index) [
    | none ↦ t
    | some sys_name ↦
        put css
          (some (record {
            css = css;
            sub_sys = sys_name;
            cgroup = event.cgroup;
            cgroup_root = event.cgroup_root;
            cgroup_level = event.cgroup_level;
            container_id = knode_name;
          }))
          t
  ]

  unfoldable pub store_css : CgroupPerfEvent → List ℕ → ℕ → List ℕ → CssTable → CssTable
  unfolding store_one
  store_css event knode_name index [] t = t
  store_css event knode_name index (css ∷ rest) t =
      store_css event knode_name (suc index) rest (store_one event knode_name index css t)

  -- One round of the loop of `cgroupDeleteCssData`, and the loop.
  unfoldable delete_one : ℕ → ℕ → CssTable → CssTable
  delete_one index css t =
      if css == 0
      then t
      else elim (sub_sys_name index) [ none ↦ t | some sys_name ↦ put css none t ]

  unfoldable pub delete_css : ℕ → List ℕ → CssTable → CssTable
  unfolding delete_one
  delete_css index [] t = t
  delete_css index (css ∷ rest) t = delete_css (suc index) rest (delete_one index css t)

  -- What `cgroupCssEventSyncHandler` does with an event, if there is one.
  unfoldable pub sync : Option CgroupPerfEvent → CssTable → CssTable
  sync none t = t
  sync (some event) t =
      let knode_name = trim_right event.knode_name in
      if not (is_valid_knode_name knode_name)
      then t
      else if event.ops_type == 0
      then store_css event knode_name 0 event.css t
      else if event.ops_type == 1
      then delete_css 0 event.css t
      else t

  -- A state that an event stores or deletes: not zero, and its subsystem has a name.
  abbrev is_css : ℕ → ℕ → ℕ → Bool
  is_css k index css = not (css == 0) && k == css && is_some (sub_sys_name index)

  abbrev pub has_css : ℕ → ℕ → List ℕ → Bool
  has_css k index [] = false
  has_css k index (css ∷ rest) = has_css k (suc index) rest || is_css k index css

  if_or :
      {A : Type 0} (a b : Bool) (x y : A)
      → (if a then x else if b then x else y) ≡ (if a || b then x else y)
  if_or true b x y = refl
  if_or false b x y = refl

  container_of-store_one :
      (event : CgroupPerfEvent) (name : List ℕ) (index css : ℕ) (t : CssTable) (k : ℕ)
      → container_of (store_one event name index css t) k
        ≡ (if is_css k index css then some name else container_of t k)
  unfolding store_one
  container_of-store_one event name index css t k = elim (Option-cases (sub_sys_name index)) [
    | inl e ↦ ground (arith, e)
    | inr (sys_name, e) ↦ ground (arith, e)
  ]

  container_of-store_css :
      (event : CgroupPerfEvent) (name : List ℕ) (index : ℕ) (css : List ℕ) (t : CssTable) (k : ℕ)
      → container_of (store_css event name index css t) k
        ≡ (if has_css k index css then some name else container_of t k)
  unfolding store_css
  container_of-store_css event name index [] t k = refl
  container_of-store_css event name index (c ∷ rest) t k =
      let later =
        container_of-store_css event name (suc index) rest (store_one event name index c t) k in
      let now = container_of-store_one event name index c t k in
      later
      ∙ ap (λ z. if has_css k (suc index) rest then some name else z) now
      ∙ if_or (has_css k (suc index) rest) (is_css k index c) (some name) (container_of t k)

  container_of-delete_one :
      (index css : ℕ) (t : CssTable) (k : ℕ)
      → container_of (delete_one index css t) k
        ≡ (if is_css k index css then none else container_of t k)
  unfolding delete_one
  container_of-delete_one index css t k = elim (Option-cases (sub_sys_name index)) [
    | inl e ↦ ground (arith, e)
    | inr (sys_name, e) ↦ ground (arith, e)
  ]

  container_of-delete_css :
      (index : ℕ) (css : List ℕ) (t : CssTable) (k : ℕ)
      → container_of (delete_css index css t) k
        ≡ (if has_css k index css then none else container_of t k)
  unfolding delete_css
  container_of-delete_css index [] t k = refl
  container_of-delete_css index (c ∷ rest) t k =
      let later = container_of-delete_css (suc index) rest (delete_one index c t) k in
      let now = container_of-delete_one index c t k in
      later
      ∙ ap (λ z. if has_css k (suc index) rest then none else z) now
      ∙ if_or (has_css k (suc index) rest) (is_css k index c) none (container_of t k)

  -- From the kernel to the table: a new cgroup whose name can be read and has letters and digits
  -- only, if it is 64 of them, as in a container's id, puts that container at exactly the cgroup's
  -- subsystem states, those aside whose subsystem has no name; when it is removed, exactly these are
  -- gone. With another length of the name nothing changes.
  pub container_of-sync :
      (probe : ProbeReadStr) (cgrp : Cgroup) (name : List ℕ) (t : CssTable) (k : ℕ)
      → cgrp.kn_name ≡ some name
      → is_valid_knode_name name ≡ true
      → let hit = length name == 64 && has_css k 0 cgrp.subsys in
        (container_of (sync (bpf_cgroup_mkdir_prog probe cgrp) t) k
          ≡ (if hit then some name else container_of t k))
        × (container_of (sync (bpf_cgroup_rmdir_prog probe cgrp) t) k
            ≡ (if hit then none else container_of t k))
  unfolding sync
  container_of-sync probe cgrp name t k e valid =
      let event : ℕ → CgroupPerfEvent = λ type. record {
        cgroup = cgrp.address;
        ops_type = type;
        cgroup_root = cgrp.hierarchy_id;
        cgroup_level = cgrp.level;
        css = cgrp.subsys;
        knode_name = name ++ replicate 2 0;
      } in
      let (made, removed) = mkdir-rmdir-reports probe cgrp name e in
      let trimmed = trim_right-append name valid in
      let stored : container_of (sync (some (event 0)) t) k
          ≡ (if has_css k 0 cgrp.subsys then some name else container_of t k) =
        rw (trimmed, valid) (container_of-store_css (event 0) name 0 cgrp.subsys t k) in
      let gone : container_of (sync (some (event 1)) t) k
          ≡ (if has_css k 0 cgrp.subsys then none else container_of t k) =
        rw (trimmed, valid) (container_of-delete_css 0 cgrp.subsys t k) in
      elim (Bool-cases (length name == 64)) [
        | inl is ↦ (rw (made, is) stored, rw (removed, is) gone)
        | inr is ↦ (rw (made, is) refl, rw (removed, is) refl)
      ]
