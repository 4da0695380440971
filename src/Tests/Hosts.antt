-- ===== src/Tests/Hosts.antt =====
-- Host names of two workspaces: control/app/hosts.py.
use boathouse_cloud.Prelude.{◌≡◌, refl, true, none, some, List, [], ◌∷◌}
use boathouse_cloud.Hosts.Resolve.{Names, Domain, auth, tool, unknown, matches, all_of, resolve}
use boathouse_cloud.Hosts.Isolated.{served-resolve}

-- com is 1, boathousecloud 2, www 3, api 4, mcp 5, auth 6.
abbrev names : Names
names = record { plat = 1 ∷ 2 ∷ []; www = 3; api_label = 4; mcp_label = 5; auth_label = 6 }

abbrev custom_domains : List Domain
custom_domains =
    record { name = 1 ∷ 10 ∷ []; workspace_id = 7; tool_slug = some 20 }
    ∷ record { name = 1 ∷ 10 ∷ 11 ∷ []; workspace_id = 7; tool_slug = none }
    ∷ record { name = 1 ∷ 12 ∷ []; workspace_id = 7; tool_slug = none }
    ∷ record { name = 1 ∷ 12 ∷ 13 ∷ []; workspace_id = 8; tool_slug = none }
    ∷ []

-- The longest domain, the front door, the free address, and an overlap of two workspaces.
longest_first :
    resolve names ((30, 9) ∷ []) custom_domains (1 ∷ 10 ∷ 11 ∷ 21 ∷ [])
    ≡ tool (1 ∷ 10 ∷ 11 ∷ []) 7 21
unfolding resolve
longest_first = refl

front_door : resolve names ((30, 9) ∷ []) custom_domains (1 ∷ 10 ∷ 3 ∷ []) ≡ tool (1 ∷ 10 ∷ []) 7 20
unfolding resolve
front_door = refl

free : resolve names ((30, 9) ∷ []) custom_domains (1 ∷ 2 ∷ 30 ∷ 6 ∷ []) ≡ auth (1 ∷ 2 ∷ 30 ∷ []) 9
unfolding resolve
free = refl

overlap : resolve names ((30, 9) ∷ []) custom_domains (1 ∷ 12 ∷ 13 ∷ []) ≡ unknown
unfolding resolve
overlap = refl

served-resolve_example : all_of 7 (matches (1 ∷ 10 ∷ 11 ∷ 21 ∷ []) custom_domains) ≡ true
unfolding resolve
served-resolve_example =
    served-resolve names ((30, 9) ∷ []) custom_domains (1 ∷ 10 ∷ 11 ∷ 21 ∷ []) 7 refl
