-- ===== src/PubSub/Session/Urls.antt =====
-- That the URLs of pubsub/PubSubPlugin/PubSubUtil.cpp tell resources apart.
use graftcode_extensions.Base.{
  ◌≡◌, refl, sym, ap, ◌∙◌, true, false, [], ◌∷◌, ◌++◌, arith, Bytes, codes, ◌==◌, All,
}
use graftcode_extensions.PubSub.Config.{PubSubConfig, endpoint_base, is_project_byte}
use graftcode_extensions.PubSub.Config.Ready.{IsProjectId}
use graftcode_extensions.PubSub.Session.{resource_url}

append_left_cancel : (p a b : Bytes) → p ++ a ≡ p ++ b → a ≡ b
append_left_cancel [] a b h = h
append_left_cancel (x ∷ p) a b h = append_left_cancel p a b (cc)

-- The first slash splits a path in one way.
split_slash :
    (x y a b : Bytes)
    → All (λ c. (c == 47) ≡ false) x
    → All (λ c. (c == 47) ≡ false) y
    → x ++ 47 ∷ a ≡ y ++ 47 ∷ b
    → (x ≡ y) × (a ≡ b)
split_slash [] [] a b h k e = (refl, cc)
split_slash [] (d ∷ y) a b h k e = absurd (ground (arith, k.0))
split_slash (c ∷ x) [] a b h k e = absurd (ground (arith, h.0))
split_slash (c ∷ x) (d ∷ y) a b h k e =
    let tail : x ++ 47 ∷ a ≡ y ++ 47 ∷ b = cc in
    let head : c ≡ d = cc in let (p, q) = split_slash x y a b h.1 k.1 tail in (ground arith, q)

project-no_slash :
    (s : Bytes) → All (λ c. is_project_byte c ≡ true) s → All (λ c. (c == 47) ≡ false) s
project-no_slash [] h = tt
project-no_slash (c ∷ s) h = (ground (arith, h.0), project-no_slash s h.1)

-- Two URLs at the same endpoint are equal just if they name the same resource: with valid project
-- ids, and collections whose names have no slash, equal URLs have the same project, the same
-- collection and the same id.
pub resource_url_injective :
    (c d : PubSubConfig) (collection collection' id id' : Bytes)
    → IsProjectId c.project_id
    → IsProjectId d.project_id
    → endpoint_base c ≡ endpoint_base d
    → All (λ b. (b == 47) ≡ false) collection
    → All (λ b. (b == 47) ≡ false) collection'
    → resource_url c collection id ≡ resource_url d collection' id'
    → (c.project_id ≡ d.project_id) × (collection ≡ collection') × (id ≡ id')
unfolding resource_url codes
resource_url_injective c d collection collection' id id' v w e p q h =
    let tail =
      codes "/v1/projects/"
      ++ (d.project_id ++ (codes "/" ++ (collection' ++ (codes "/" ++ id')))) in
    let behind =
      append_left_cancel (codes "/v1/projects/") _ _
        (append_left_cancel (endpoint_base c) _ _ (h ∙ ap (λ (b : Bytes). b ++ tail) (sym e))) in
    let (x, rest) =
      split_slash c.project_id d.project_id _ _ (project-no_slash _ v.all_bytes)
        (project-no_slash _ w.all_bytes) behind in
    let (y, z) = split_slash collection collection' _ _ p q rest in (x, y, z)
