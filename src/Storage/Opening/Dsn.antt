-- ===== src/Storage/Opening/Dsn.antt =====
-- The data source names of internal/storage: mysqlDSN of mysql.go and pgConnString of postgres.go.
use open_sync_crdt.Prelude.{
  String, Option, none, some, List, [], ◌∷◌, ◌≡◌, refl, arith, if◌then◌else◌, Bool-cases, inl, inr,
  String-cases, subst,
}
use open_sync_crdt.Prelude.Map.{Map, lookup, insert, lookup-insert}
use open_sync_crdt.Prelude.Text.{Text, codes}
use open_sync_crdt.Storage.Opening.{Urls, with_sslmode, is_empty, merge_params}

-- The first of a parameter's values.
unfoldable pub first_value : Option (List Text) → Option Text
first_value none = none
first_value (some []) = none
first_value (some (v ∷ vs)) = some v

-- No key stands twice: what a Go map is.
unfoldable pub IsMap : {V : Type 0} → Map V → Type 0
IsMap [] = Unit
IsMap ((k, v) ∷ rest) = (lookup k rest ≡ none) × IsMap rest

unfoldable pub or_else : Option Text → Option Text → Option Text
or_else none o = o
or_else (some v) o = some v

merge_params-after :
    (k : String) (query : Map (List Text)) (params : Map Text)
    → IsMap query
    → lookup k (merge_params query params)
      ≡ or_else (first_value (lookup k query)) (lookup k params)
unfolding merge_params IsMap lookup first_value or_else
merge_params-after k [] params h = refl
merge_params-after k ((j, []) ∷ query) params (fresh, h) =
    let rest = merge_params-after k query params h in
    elim (String-cases j k) [
      | inl (p, t) ↦ rw t (ground (arith, rest, subst (λ i. lookup i query ≡ none) p fresh))
      | inr (p, f) ↦ rw f rest
    ]
merge_params-after k ((j, v ∷ vs) ∷ query) params (fresh, h) =
    let rest = merge_params-after k query (insert j v params) h in
    elim (String-cases j k) [
      | inl (p, t) ↦ rw t (
          ground
            (arith, rest, lookup-insert j k v params, subst (λ i. lookup i query ≡ none) p fresh))
      | inr (p, f) ↦ rw f (ground (arith, rest, lookup-insert j k v params))
    ]

-- Of a query, which is a map: whatever the order in which the range gives it, the driver's parameter
-- `k` is the first value of the query's `k`, and there is none where the query has none.
pub merge_params-first :
    (k : String) (query : Map (List Text))
    → IsMap query
    → lookup k (merge_params query []) ≡ first_value (lookup k query)
unfolding lookup or_else
merge_params-first k query h = ground (arith, merge_params-after k query [] h)

-- Where a parameter that is set is read back: of the URL that pgConnString prints, the sslmode is the
-- one that the configured URL names, and the configured mode where it names none.
pub with_sslmode-get :
    (urls : Urls) (mode : Text) (u : urls.Url)
    → ((v : Text) → urls.get (urls.set u (codes "sslmode") v) (codes "sslmode") ≡ v)
    → urls.get (with_sslmode urls mode u) (codes "sslmode") ≡ (
        if is_empty urls (urls.get u (codes "sslmode")) then mode else urls.get u (codes "sslmode"))
unfolding with_sslmode is_empty
with_sslmode-get urls [] u read =
    elim (urls.get u (codes "sslmode")) as (λ t. t ≡ (if is_empty urls t then [] else t)) [
      | [] ↦ refl
      | c ∷ t ↦ refl
    ]
with_sslmode-get urls (c ∷ mode) u read =
    elim (Bool-cases (is_empty urls (urls.get u (codes "sslmode")))) [
      | inl t ↦ rw (t, with_sslmode) (read (c ∷ mode))
      | inr f ↦ rw (f, with_sslmode) refl
    ]
