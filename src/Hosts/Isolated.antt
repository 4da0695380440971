-- ===== src/Hosts/Isolated.antt =====
-- A host name is never served across workspaces.
use boathouse_cloud.Prelude.{
  ℕ, ◌≡◌, refl, sym, subst, ◌∙◌, ==_refl, Bool, true, false, ◌&&◌, ◌||◌, Option, none, some, List,
  [], ◌∷◌, ◌++◌, arith, inl, inr, Bool-cases, ◌==◌, ltb, if◌then◌else◌,
}
use boathouse_cloud.Prelude.Table.{Table}
use boathouse_cloud.Hosts.Resolve.{
  Name, under, labels, Domain, Where, platform, api, mcp, home, auth, tool, unknown, Names, matches,
  same_name, all_of, are_mixed, longer, longest, face_of, face, is_front, fronted, by_domain,
  resolve_tenant, resolve,
}

-- The workspace that is served.
abbrev pub served : Where → Option ℕ
served (home base w) = some w
served (auth base w) = some w
served (tool base w slug) = some w
served _ = none

longer_owner :
    (w : ℕ) (d : Domain) (o : Option Domain)
    → d.workspace_id ≡ w
    → ((e : Domain) → o ≡ some e → e.workspace_id ≡ w)
    → (longer d o).workspace_id ≡ w
longer_owner w d none own rest = own
longer_owner w d (some e) own rest = elim (Bool-cases (ltb (labels d.name) (labels e.name))) [
  | inl shorter ↦ rw shorter (rest e refl)
  | inr long ↦ rw long own
]

longest_owner :
    (w : ℕ) (ds : List Domain)
    → all_of w ds ≡ true
    → (e : Domain) → longest ds ≡ some e
    → e.workspace_id ≡ w
longest_owner w [] own e there = ground arith
longest_owner w (d ∷ ds) own e there =
    let first : d.workspace_id ≡ w = ground arith in
    let others : all_of w ds ≡ true = ground arith in
    let same : longer d (longest ds) ≡ e = ground arith in
    subst {A = Domain} (λ x. x.workspace_id ≡ w) same
      (longer_owner w d (longest ds) first (λ x h. longest_owner w ds others x h))

module _ (n : Names) where
  served-face_of :
      (base : Name) (v w : ℕ) (o : Option Name) → served (face_of n base v o) ≡ some w → v ≡ w
  served-face_of base v w none e = ground arith
  served-face_of base v w (some []) e = ground arith
  served-face_of base v w (some (l ∷ [])) e = ground arith
  served-face_of base v w (some (l ∷ m ∷ ls)) e = ground arith

  served-fronted :
      (host : Name) (d : Domain) (w : ℕ) (o : Option ℕ)
      → served (fronted n host d o) ≡ some w
      → d.workspace_id ≡ w
  served-fronted host d w none e = served-face_of d.name d.workspace_id w (under d.name host) e
  served-fronted host d w (some slug) e = go (is_front n (under d.name host)) e
    where
      go :
          (b : Bool)
          → served
              (if b then tool d.name d.workspace_id slug else face n host d.name d.workspace_id)
            ≡ some w
          → d.workspace_id ≡ w
      go true h = ground arith
      go false h = served-face_of d.name d.workspace_id w (under d.name host) h

  unmixed :
      (slugs : Table ℕ) (host : Name) (w : ℕ) (ds : List Domain)
      → are_mixed ds ≡ false
      → served (by_domain n slugs host (longest ds)) ≡ some w
      → all_of w ds ≡ true
  unmixed slugs host w [] same e = refl
  unmixed slugs host w (d ∷ ds) same e =
      let others : all_of d.workspace_id ds ≡ true = ground arith in
      let f = longer d (longest ds) in
      let own =
        longer_owner d.workspace_id d (longest ds) refl (longest_owner d.workspace_id ds others) in
      subst (λ v. (d.workspace_id == v && all_of v ds) ≡ true)
        (sym own ∙ served-fronted host f w f.tool_slug e) (rw (==_refl d.workspace_id) others)

  tenant_owner :
      (slugs : Table ℕ) (domains : List Domain) (host : Name) (w : ℕ)
      → served (resolve_tenant n slugs domains host) ≡ some w
      → all_of w (matches host domains) ≡ true
  unfolding resolve_tenant
  tenant_owner slugs domains host w e = go (are_mixed (matches host domains)) refl e
    where
      go :
          (b : Bool)
          → are_mixed (matches host domains) ≡ b
          → served (if b then unknown else by_domain n slugs host (longest (matches host domains)))
            ≡ some w
          → all_of w (matches host domains) ≡ true
      go true mixed h = ground arith
      go false same h = unmixed slugs host w (matches host domains) same h

  -- Where a host name is resolved to a face of a workspace, every active domain that the name is or
  -- lies under belongs to that workspace.
  pub served-resolve :
      (slugs : Table ℕ) (domains : List Domain) (host : Name) (w : ℕ)
      → served (resolve n slugs domains host) ≡ some w
      → all_of w (matches host domains) ≡ true
  unfolding resolve
  served-resolve slugs domains host w e =
      go (same_name host n.plat || same_name host (n.plat ++ n.www ∷ []))
        (same_name host (n.plat ++ n.api_label ∷ [])) (same_name host (n.plat ++ n.mcp_label ∷ []))
        e
    where
      go :
          (x y z : Bool)
          → served (
              if x
              then platform
              else if y
              then api
              else if z
              then mcp
              else resolve_tenant n slugs domains host)
            ≡ some w
          → all_of w (matches host domains) ≡ true
      go true y z h = ground arith
      go false true z h = ground arith
      go false false true h = ground arith
      go false false false h = tenant_owner slugs domains host w h
