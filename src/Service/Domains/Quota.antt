-- ===== src/Service/Domains/Quota.antt =====
-- The number of custom domains of an organization.
use redxt.Common.{
  ℕ, ℤ, pos, negsuc, not, ◌&&◌, ◌==◌, ◌+◌, ◌≤◌, ◌<◌, Bool, true, List, [], ◌∷◌, ◌++◌, ◌≡◌, refl, ap,
  count_where, keep, update_where, none, All, ok, arith, ltb_ℤ, leb_ℤ,
}
use redxt.Store.Tables.{Domain, Db}
use redxt.Store.Domains.{
  has_id, pending_row, count_org_domains, create_domain, update_domain_purpose,
  record_verification_attempt, activate_domain, suspend_domain_row, set_domain_ssl, update_domains,
}
use redxt.Store.Domains.Laws.{update_domains_ok, create_domain_ok, delete_domain_ok}
use redxt.Service.Domains.Environment.{DomainPolicy}
use redxt.Service.Domains.Verify.{check_ownership}
use redxt.Service.Domains.Commands.{DomainCommand, run_domains}
use redxt.Service.Domains.Keeps.{StoreKeeps, within_quota}
use redxt.Service.Domains.Keeps.Operations.{run_domains-keeps}

abbrev of_org : ℕ → Domain → Bool
of_org o d = d.org_id == o

count-update :
    (o : ℕ) (p : Domain → Bool) (f : Domain → Domain) (ds : List Domain)
    → ((d : Domain) → (f d).org_id ≡ d.org_id)
    → count_where (of_org o) (update_where p f ds) ≡ count_where (of_org o) ds
count-update o p f [] same = refl
count-update o p f (d ∷ ds) same =
    ground (arith, count-update o p f ds same, ap (λ i. i == o) (same d))

count-keep-le :
    (p q : Domain → Bool) (ds : List Domain) → count_where p (keep q ds) ≤ count_where p ds
count-keep-le p q [] = omega arith
count-keep-le p q (d ∷ ds) = ground (arith, count-keep-le p q ds)

count-append :
    (p : Domain → Bool) (xs ys : List Domain)
    → count_where p (xs ++ ys) ≡ count_where p xs + count_where p ys
count-append p [] ys = omega arith
count-append p (x ∷ xs) ys = ground (arith, count-append p xs ys)

room_left :
    (max : ℕ) (m : ℤ) (held : ℕ)
    → 0 < max
    → m ≡ pos max
    → not (ltb_ℤ (pos 0) m && leb_ℤ m (pos held)) ≡ true
    → held < max
room_left max (pos n) held positive e h = ground arith
room_left max (negsuc n) held positive e h = cc

All-anything :
    (cs : List DomainCommand)
    → All (λ c. (d : Domain) → check_ownership c.outside d ≡ none → Unit {0}) cs
All-anything [] = tt
All-anything (c ∷ cs) = ((λ d h. tt), All-anything cs)

-- No organization has more domains than the quota, if there is one.
module _ (max : ℕ) (policy : DomainPolicy) (positive : 0 < max)
    (quota : policy.max_per_org ≡ pos max) where
  abbrev IsWithinQuota : Db → Type 0
  IsWithinQuota db = (o : ℕ) → count_org_domains db o ≤ max

  update-IsWithinQuota :
      (p : Domain → Bool) (f : Domain → Domain) (db db1 : Db)
      → ((d : Domain) → (f d).org_id ≡ d.org_id)
      → update_domains p f db ≡ ok db1
      → IsWithinQuota db
      → IsWithinQuota db1
  unfolding count_org_domains
  update-IsWithinQuota p f db db1 same h i o = omega (
    arith,
    ap (count_where (of_org o)) (update_domains_ok p f db db1 h),
    count-update o p f db.domains same,
    i o,
  )

  create-IsWithinQuota :
      (d : Domain) (db db1 : Db)
      → within_quota policy (count_org_domains db d.org_id) ≡ true
      → create_domain d db ≡ ok db1
      → IsWithinQuota db
      → IsWithinQuota db1
  unfolding count_org_domains
  create-IsWithinQuota d db db1 room h i o = ground (
    arith,
    ap (count_where (of_org o)) (create_domain_ok d db db1 h).0,
    count-append (of_org o) db.domains (pending_row d ∷ []),
    room_left max policy.max_per_org (count_org_domains db d.org_id) positive quota room,
    i o,
  )

  keeps-IsWithinQuota : StoreKeeps policy (λ _. Unit {0}) IsWithinQuota
  unfolding count_org_domains update_domain_purpose activate_domain suspend_domain_row
      set_domain_ssl record_verification_attempt
  keeps-IsWithinQuota = record {
    rows = λ db db1 e i o. rw e (i o);
    create = λ d db db1 room h i. create-IsWithinQuota d db db1 room h i;
    failed = λ d now db db1 _ _ h i. update-IsWithinQuota _ _ db db1 (λ e. refl) h i;
    proved = λ d now db db1 _ _ h i. update-IsWithinQuota _ _ db db1 (λ e. refl) h i;
    activate = λ id db db1 h i. update-IsWithinQuota _ _ db db1 (λ d. refl) h i;
    repurpose = λ id purpose db db1 h i. update-IsWithinQuota _ _ db db1 (λ d. refl) h i;
    suspend = λ id reason db db1 h i. update-IsWithinQuota _ _ db db1 (λ d. refl) h i;
    ssl = λ d db db1 h i. update-IsWithinQuota _ _ db db1 (λ e. refl) h i;
    delete = λ id db db1 h i o. omega (
      arith,
      ap (count_where (of_org o)) (delete_domain_ok id db db1 h),
      count-keep-le (of_org o) (λ d. not (has_id id d)) db.domains,
      i o,
    );
  }

  -- If the quota of domains is positive and no organization is over it, no organization is over
  -- it after any sequence of domain commands.
  pub domains_within_quota :
      (cs : List DomainCommand) (db : Db) (o : ℕ)
      → IsWithinQuota db
      → count_org_domains (run_domains policy cs db) o ≤ max
  domains_within_quota cs db o i =
      run_domains-keeps policy _ IsWithinQuota keeps-IsWithinQuota cs db (All-anything cs) i o
