-- ===== src/Kernel/Attentions/Fences.antt =====
-- packages/kernel/src/schema.ts: attention_domain_fences has one row for each domain.
use torsor.Prelude.{
  ℕ, ◌≤◌, String, ◌≡◌, refl, Bool, true, not, none, List, [], ◌∷◌, ◌++◌, inl, inr, arith, eq_iff,
  length, first_row, where_rows, update_rows, Bool-cases,
}
use torsor.Kernel.Rows.{Attention, DomainFence}
use torsor.Kernel.Attentions.Domains.{
  is_domain_of, take_fence, new_fence, drop_fence_lease, has_attention_id, is_settled_of,
}
use torsor.Kernel.Attentions.Owned.{where_rows-append, append-nil}

-- No execution domain has two fences.
abbrev pub Exclusive : List DomainFence → Type 0
Exclusive t = (a : Attention) → length (where_rows (is_domain_of a) t) ≤ 1

length-where_rows-update :
    {A : Type 0} (test p : A → Bool) (f : A → A)
    → ((x : A) → test (f x) ≡ test x)
    → (xs : List A) → length (where_rows test (update_rows p f xs)) ≡ length (where_rows test xs)
unfolding where_rows update_rows
length-where_rows-update test p f k [] = refl
length-where_rows-update test p f k (x ∷ xs) =
    ground (arith, k x, length-where_rows-update test p f k xs)

where_rows-where :
    {A : Type 0} (test p : A → Bool) (xs : List A)
    → length (where_rows test (where_rows p xs)) ≤ length (where_rows test xs)
unfolding where_rows
where_rows-where test p [] = omega arith
where_rows-where test p (x ∷ xs) = ground (arith, where_rows-where test p xs)

none_found :
    {A : Type 0} (test : A → Bool) (xs : List A)
    → first_row test xs ≡ none
    → length (where_rows test xs) ≡ 0
unfolding first_row where_rows
none_found test [] h = refl
none_found test (x ∷ xs) h = ground (arith, h, none_found test xs)

-- two Attentions whose domains meet have one domain
same_domain :
    (a b : Attention) (token : String) (e : ℕ)
    → is_domain_of b (new_fence a token e) ≡ true
    → (f : DomainFence) → is_domain_of b f ≡ is_domain_of a f
same_domain a b token e h f = ground (
  arith,
  h,
  eq_iff a.target_agent_id b.target_agent_id,
  eq_iff a.project_id b.project_id,
  eq_iff a.channel_id b.channel_id,
  eq_iff a.thread_root_id b.thread_root_id,
)

where_rows-ext :
    {A : Type 0} (p q : A → Bool)
    → ((x : A) → p x ≡ q x)
    → (xs : List A) → where_rows p xs ≡ where_rows q xs
unfolding where_rows
where_rows-ext p q k [] = refl
where_rows-ext p q k (x ∷ xs) = rw (k x, where_rows-ext p q k xs) refl

pub add-Exclusive :
    (a : Attention) (token : String) (e : ℕ) (t : List DomainFence)
    → first_row (is_domain_of a) t ≡ none
    → Exclusive t
    → Exclusive (t ++ new_fence a token e ∷ [])
add-Exclusive a token e t absent h b =
    rw (where_rows-append (is_domain_of b) t (new_fence a token e))
      (elim (Bool-cases (is_domain_of b (new_fence a token e))) [
        | inl same ↦ rw same (
            rw (where_rows-ext (is_domain_of b) (is_domain_of a) (same_domain a b token e same) t)
              (empty (where_rows (is_domain_of a) t) (none_found (is_domain_of a) t absent)))
        | inr other ↦ rw other (rw (append-nil (where_rows (is_domain_of b) t)) (h b))
      ])
  where
    empty : (xs : List DomainFence) → length xs ≡ 0 → length (xs ++ new_fence a token e ∷ []) ≤ 1
    empty [] h = omega arith
    empty (x ∷ xs) h = absurd (omega (arith, h))

pub take-Exclusive :
    (a : Attention) (token : String) (e : ℕ) (t : List DomainFence)
    → Exclusive t
    → Exclusive (update_rows (is_domain_of a) (take_fence a.id token e) t)
take-Exclusive a token e t h b =
    rw
      (length-where_rows-update (is_domain_of b) (is_domain_of a) (take_fence a.id token e)
        (λ x. refl) t)
      (h b)

pub release-Exclusive :
    (id : String) (t : List DomainFence)
    → Exclusive t
    → Exclusive (
        where_rows
          (λ f. not (is_settled_of id f))
          (update_rows (has_attention_id id) drop_fence_lease t))
release-Exclusive id t h b = omega (
  arith,
  where_rows-where (is_domain_of b) (λ f. not (is_settled_of id f))
      (update_rows (has_attention_id id) drop_fence_lease t),
  length-where_rows-update (is_domain_of b) (has_attention_id id) drop_fence_lease (λ x. refl) t,
  h b,
)
