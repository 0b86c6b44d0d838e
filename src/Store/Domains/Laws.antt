-- ===== src/Store/Domains/Laws.antt =====
-- Domains have ids of their own, and every statement leaves them so.
use redxt.Common.{
  differ, differ-append, differ-update, ℕ, ◌==◌, ◌||◌, not, Bool, true, false, List, [], ◌∷◌, ◌++◌,
  ◌≡◌, refl, ap, some, All, any, find, keep, update_where, arith, ok, ◌=ᵗ◌, if◌then◌else◌, ==_iff,
}
use redxt.Store.Tables.{Domain, Db}
use redxt.Store.Domains.{
  has_id, pending_row, normalize_domain, update_domains, create_domain, delete_domain,
}

abbrev pub same_key : Domain → Domain → Bool
same_key d e = has_id d.id e

-- No id occurs twice.
abbrev pub ids_differ : List Domain → Bool
ids_differ = differ same_key

any-or_left :
    (p q : Domain → Bool) (ds : List Domain) → any (λ d. p d || q d) ds ≡ false → any q ds ≡ false
any-or_left p q [] h = refl
any-or_left p q (d ∷ ds) h = ground (arith, any-or_left p q ds)

pub ids_differ-append :
    (ds : List Domain) (d : Domain)
    → any (has_id d.id) ds ≡ false
    → ids_differ ds ≡ true
    → ids_differ (ds ++ d ∷ []) ≡ true
ids_differ-append ds d h i = differ-append same_key ds d (λ a b. ground arith) h i

pub ids_differ-update :
    (p : Domain → Bool) (f : Domain → Domain)
    → ((d : Domain) → (f d).id ≡ d.id)
    → (ds : List Domain) → ids_differ ds ≡ true
    → ids_differ (update_where p f ds) ≡ true
ids_differ-update p f same ds h =
    differ-update same_key p f (λ a b. ap (λ i. b.id == i) (same a))
      (λ a b. ap (λ i. i == a.id) (same b)) ds h

update-none :
    (p : Domain → Bool) (f : Domain → Domain) (ds : List Domain)
    → any p ds ≡ false
    → update_where p f ds ≡ ds
update-none p f [] h = refl
update-none p f (d ∷ ds) h = ground (arith, update-none p f ds)

same_id :
    (k : ℕ) (x : Domain) (xs : List Domain)
    → has_id k x ≡ true
    → any (has_id x.id) xs ≡ any (has_id k) xs
same_id k x xs h = ap (λ i. any (has_id i) xs) ((==_iff x.id k).0 h)

-- Under different ids, an update of the row of an id meets no other row.
pub All-update_found :
    (P : Domain → Type 0) (f : Domain → Domain) (k : ℕ) (ds : List Domain) (d : Domain)
    → ids_differ ds ≡ true
    → find (has_id k) ds ≡ some d
    → P (f d)
    → All P ds
    → All P (update_where (has_id k) f ds)
All-update_found P f k [] d u e g h = tt
All-update_found P f k (x ∷ xs) d u e g h =
    split (has_id k x) refl
      (λ missed. All-update_found P f k xs d (ground arith) (ground arith) g h.1)
  where
    split :
        (b : Bool)
        → has_id k x ≡ b
        → (has_id k x ≡ false → All P (update_where (has_id k) f xs))
        → P (if b then f x else x) × All P (update_where (has_id k) f xs)
    split true found rest =
        ground (arith, g, h.0, h.1, same_id k x xs found, update-none (has_id k) f xs)
    split false missed rest = (h.0, rest missed)

pub update_domains_ok :
    (p : Domain → Bool) (f : Domain → Domain) (db db1 : Db)
    → update_domains p f db ≡ ok db1
    → db1.domains ≡ update_where p f db.domains
update_domains_ok p f db db1 h = ground arith

pub create_domain_ok :
    (d : Domain) (db db1 : Db)
    → create_domain d db ≡ ok db1
    → (db1.domains ≡ db.domains ++ pending_row d ∷ []) × (any (has_id d.id) db.domains ≡ false)
unfolding create_domain
create_domain_ok d db db1 h =
    ground (arith, any-or_left (λ e. e.name =ᵗ normalize_domain d.name) (has_id d.id) db.domains)

pub delete_domain_ok :
    (id : ℕ) (db db1 : Db)
    → delete_domain id db ≡ ok db1
    → db1.domains ≡ keep (λ d. not (has_id id d)) db.domains
unfolding delete_domain
delete_domain_ok id db db1 h = ground arith
