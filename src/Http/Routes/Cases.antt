-- ===== src/Http/Routes/Cases.antt =====
-- The cases of a request: by its method, by its path, and what of the world each may touch.
use u_paste.Prelude.{◌≡◌, refl, inl, inr, ◌||◌, some, Bool-cases, Option-cases, bytes_eq, codes}
use u_paste.Capability.{ShareId}
use u_paste.Abuse
use u_paste.Abuse.{Control, Kind}
use u_paste.Share.{Env}
use u_paste.Http
use u_paste.Http.{Method, get, post, delete, other, Response}
use u_paste.Http.Texts.{has_prefix}
use u_paste.Http.Requests.{Request, Server}
use u_paste.Http.Routes.{
  World, path_id, shares_path, raw_path, allowed, collection, item_with, item, raw, dispatch, route,
}

pub data MethodCases (m : Method) : Type 0 where
  is_get : m ≡ get → MethodCases m
  is_post : m ≡ post → MethodCases m
  is_patch : m ≡ u_paste.Http.patch → MethodCases m
  is_delete : m ≡ delete → MethodCases m
  is_other : m ≡ other → MethodCases m

pub Method-cases : (m : Method) → MethodCases m
Method-cases get = is_get refl
Method-cases post = is_post refl
Method-cases u_paste.Http.patch = is_patch refl
Method-cases delete = is_delete refl
Method-cases other = is_other refl

module _ (server : Server) (env : Env) where
  pub item_with_cases :
      (P : World server → Type 0) (kind : Kind) (r : Request) (world : World server)
      (handle : ShareId → World server → Response × World server)
      → P (allowed server env kind r world).1
      → ((id : ShareId)
          → path_id shares_path r.path ≡ some id
          → P (handle id (allowed server env kind r world).1).1)
      → P (item_with server env kind r world handle).1
  unfolding item_with
  item_with_cases P kind r world handle h k =
      elim (Bool-cases (allowed server env kind r world).0) [
        | inr q ↦ rw (q, item_with) h
        | inl q ↦ elim (Option-cases (path_id shares_path r.path)) [
          | inl n ↦ rw (q, n, item_with) h
          | inr (id, n) ↦ rw (q, n, item_with) (k id n)
        ]
      ]

  -- The raw view reads only.
  pub raw_cases :
      (P : World server → Type 0) (r : Request) (world : World server)
      → P world
      → P (allowed server env u_paste.Abuse.read r world).1
      → P (raw server env r world).1
  unfolding raw
  raw_cases P r world h k = elim (Method-cases r.method) [
    | is_get q ↦ elim (Bool-cases (allowed server env u_paste.Abuse.read r world).0) [
      | inr a ↦ rw (q, a, raw) k
      | inl a ↦ elim (Option-cases (path_id raw_path r.path)) [
        | inl n ↦ rw (q, a, n, raw) k
        | inr (id, n) ↦ rw (q, a, n, raw) k
      ]
    ]
    | is_post q ↦ rw (q, raw) h
    | is_patch q ↦ rw (q, raw) h
    | is_delete q ↦ rw (q, raw) h
    | is_other q ↦ rw (q, raw) h
  ]

  -- What holds of the world before and after each of the three handlers holds after the request.
  pub route_cases :
      (later : Env) (r : Request) (world : World server) (P : World server → Type 0)
      → P world
      → P (collection server env r world).1
      → P (item server env later r world).1
      → P (raw server env r world).1
      → P (route server env later r world).1
  unfolding route dispatch
  route_cases later r world P h k m n =
      elim (Bool-cases (bytes_eq r.path (codes "/api/v1/config"))) [
        | inl a ↦ rw (a, route, dispatch) h
        | inr a ↦ elim (Bool-cases (bytes_eq r.path (codes "/api/v1/shares"))) [
          | inl b ↦ rw (a, b, route, dispatch) k
          | inr b ↦ elim (Bool-cases (has_prefix r.path shares_path)) [
            | inl c ↦ rw (a, b, c, route, dispatch) m
            | inr c ↦ elim (Bool-cases (has_prefix r.path (codes "/api/v1/"))) [
              | inl d ↦ rw (a, b, c, d, route, dispatch) h
              | inr d ↦
                  elim (Bool-cases (bytes_eq r.path (codes "/raw") || has_prefix r.path raw_path)) [
                    | inl e ↦ rw (a, b, c, d, e, route, dispatch) n
                    | inr e ↦ rw (a, b, c, d, e, route, dispatch) h
                  ]
            ]
          ]
        ]
      ]
