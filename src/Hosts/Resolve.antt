-- ===== src/Hosts/Resolve.antt =====
-- `resolve` and `_face` of control/app/hosts.py. A host name is the list of its
-- labels from the top-level domain down, without a port and in lower case, so that a name under a
-- domain begins with it; of the domains that a host lies under, the longest text has the most labels.
use boathouse_cloud.Prelude.{
  ℕ, suc, Bool, true, false, not, ◌&&◌, ◌||◌, Option, none, some, List, [], ◌∷◌, ◌++◌, ◌==◌, ltb,
  is_some, if◌then◌else◌,
}
use boathouse_cloud.Prelude.Table.{Table, find}

abbrev pub Name : Type 0
Name = List ℕ

abbrev pub same_name : Name → Name → Bool
same_name [] [] = true
same_name (x ∷ xs) (y ∷ ys) = x == y && same_name xs ys
same_name _ _ = false

-- The labels under a domain, if the host is it or ends in it.
abbrev pub under : Name → Name → Option Name
under [] host = some host
under (x ∷ xs) [] = none
under (x ∷ xs) (y ∷ ys) = if x == y then under xs ys else none

abbrev pub labels : Name → ℕ
labels [] = 0
labels (x ∷ xs) = suc (labels xs)

-- An active row of `domains`.
pub record Domain : Type 0 where
  pub name : Name
  pub workspace_id : ℕ
  pub tool_slug : Option ℕ

-- `Where`: the kind with the base of its cookie, the workspace and the slug.
pub data Where : Type 0 where
  platform api mcp : Where
  home auth : Name → ℕ → Where
  tool : Name → ℕ → ℕ → Where
  unknown : Where

-- The labels that the program compares with, and the platform's domain.
pub record Names : Type 0 where
  pub plat : Name
  pub www : ℕ
  pub api_label : ℕ
  pub mcp_label : ℕ
  pub auth_label : ℕ

-- the rows of `matches`
abbrev pub matches : Name → List Domain → List Domain
matches host [] = []
matches host (d ∷ ds) = if is_some (under d.name host) then d ∷ matches host ds else matches host ds

-- `len({d["workspace_id"] for d in matches}) > 1`
abbrev pub all_of : ℕ → List Domain → Bool
all_of w [] = true
all_of w (d ∷ ds) = d.workspace_id == w && all_of w ds

abbrev pub are_mixed : List Domain → Bool
are_mixed [] = false
are_mixed (d ∷ ds) = not (all_of d.workspace_id ds)

-- the first row ORDER BY LENGTH(domain) DESC
abbrev pub longer : Domain → Option Domain → Domain
longer d none = d
longer d (some e) = if ltb (labels d.name) (labels e.name) then e else d

abbrev pub longest : List Domain → Option Domain
longest [] = none
longest (d ∷ ds) = some (longer d (longest ds))

module _ (n : Names) where
  -- `_face`, by the labels under the base
  abbrev pub face_of : Name → ℕ → Option Name → Where
  face_of base w none = unknown
  face_of base w (some []) = home base w
  face_of base w (some (l ∷ [])) = if l == n.auth_label then auth base w else tool base w l
  face_of base w (some (l ∷ m ∷ ls)) = unknown

  abbrev pub face : Name → Name → ℕ → Where
  face host base w = face_of base w (under base host)

  -- `host in (dom, "www." + dom)`
  abbrev pub is_front : Option Name → Bool
  is_front (some []) = true
  is_front (some (l ∷ [])) = l == n.www
  is_front _ = false

  abbrev pub fronted : Name → Domain → Option ℕ → Where
  fronted host d none = face host d.name d.workspace_id
  fronted host d (some slug) =
      if is_front (under d.name host)
      then tool d.name d.workspace_id slug
      else face host d.name d.workspace_id

  -- A custom domain of one workspace.
  abbrev pub custom : Name → Domain → Where
  custom host d = fronted host d d.tool_slug

  -- The free address; `slugs` has a workspace under its slug.
  abbrev pub free_face : Name → ℕ → Option ℕ → Where
  free_face host slug none = unknown
  free_face host slug (some w) = face host (n.plat ++ slug ∷ []) w

  abbrev pub free_address : Table ℕ → Name → Option Name → Where
  free_address slugs host none = unknown
  free_address slugs host (some []) = unknown
  free_address slugs host (some (slug ∷ [])) = free_face host slug (find slug slugs)
  free_address slugs host (some (slug ∷ l ∷ [])) = free_face host slug (find slug slugs)
  free_address slugs host (some (slug ∷ l ∷ m ∷ ls)) = unknown

  abbrev pub by_domain : Table ℕ → Name → Option Domain → Where
  by_domain slugs host none = free_address slugs host (under n.plat host)
  by_domain slugs host (some d) = custom host d

  unfoldable pub resolve_tenant : Table ℕ → List Domain → Name → Where
  resolve_tenant slugs domains host =
      if are_mixed (matches host domains)
      then unknown
      else by_domain slugs host (longest (matches host domains))

  -- `resolve`
  unfoldable pub resolve : Table ℕ → List Domain → Name → Where
  unfolding resolve_tenant
  resolve slugs domains host =
      if same_name host n.plat || same_name host (n.plat ++ n.www ∷ [])
      then platform
      else if same_name host (n.plat ++ n.api_label ∷ [])
      then api
      else if same_name host (n.plat ++ n.mcp_label ∷ [])
      then mcp
      else resolve_tenant slugs domains host
