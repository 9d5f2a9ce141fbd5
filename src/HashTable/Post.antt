-- ===== src/HashTable/Post.antt =====
-- What holds after the parts of a call, if it has not used up its rounds.
use disk_oriented_concurrenc.Base.{
  ℕ, ◌≡◌, refl, ap, sym, ◌∙◌, Bool, false, Option, none, some, ◌==◌,
}
use disk_oriented_concurrenc.RwLatch.{RwLatch}
use disk_oriented_concurrenc.HashDirectory.{HashTableDirectoryPage, Checked, returns, asserts}
use disk_oriented_concurrenc.HashTable.{
  ◌>>=◌, ◌>>◌, PagePool, HashTable, Call, Outcome, done, failed, waits, spent, latch, check, expect,
  assert_pool, fetch_directory_page, fetch_bucket_page, invalid_page_id, where_so, directory_id,
  new_page,
}
use disk_oriented_concurrenc.HashTable.Pool.{directory_of}

-- A result that is not `spent`, and holds to `Q` if it is done.
abbrev pub Post {ℓ} :
    {P : Type 0} {A : Type ℓ} → Outcome (A × HashTable P) → (A → HashTable P → Type 0) → Type 0
Post (done (a, t)) Q = Q a t
Post failed Q = Unit
Post waits Q = Unit
Post spent Q = ⊥

pub then_on {ℓ κ} :
    {P : Type 0} {A : Type ℓ} {B : Type κ} (o : Outcome (A × HashTable P)) (f : A → Call P B)
    (Q : A → HashTable P → Type 0) (R : B → HashTable P → Type 0)
    → Post o Q
    → ((a : A) (t : HashTable P) → Q a t → Post (f a t) R)
    → Post (elim o [ done (a, t') ↦ f a t' | failed ↦ failed | waits ↦ waits | spent ↦ spent ]) R
then_on (done (a, t)) f Q R p k = k a t p
then_on failed f Q R p k = tt
then_on waits f Q R p k = tt
then_on spent f Q R p k = absurd p

pub bind-Post {ℓ κ} :
    {P : Type 0} {A : Type ℓ} {B : Type κ} (m : Call P A) (f : A → Call P B) (t : HashTable P)
    (Q : A → HashTable P → Type 0) (R : B → HashTable P → Type 0)
    → Post (m t) Q
    → ((a : A) (t : HashTable P) → Q a t → Post (f a t) R)
    → Post ((m >>= f) t) R
bind-Post m f t Q R p k = then_on (m t) f Q R p k

module _ {ℓ κ} {P : Type 0} {K : Type ℓ} {V : Type κ} (pages : PagePool P K V) where
  -- What the rounds rely on in a pool: a fetch and an unpin that succeed leave every directory as it was, and a
  -- directory that is written can be read.
  pub record Keeps : Type 0 where
    pub fetch_keeps :
        (p p' : P) (id x : ℕ)
        → pages.fetch_page p id ≡ some p'
        → pages.directory p' x ≡ pages.directory p x
    pub unpin_keeps :
        (p p' : P) (id x : ℕ) (dirty : Bool)
        → pages.unpin_page p id dirty ≡ some p'
        → pages.directory p' x ≡ pages.directory p x
    pub written :
        (p : P) (id : ℕ) (d : HashTableDirectoryPage)
        → pages.directory (pages.set_directory p id d) id ≡ d

  -- The same directory.
  pub record Same (t t' : HashTable P) : Type 0 where
    pub id : t'.directory_page_id ≡ t.directory_page_id
    pub dir : directory_of pages t' ≡ directory_of pages t

  pub Same-trans : (t t' t'' : HashTable P) → Same t t' → Same t' t'' → Same t t''
  Same-trans t t' t'' a b = record { id = b.id ∙ a.id; dir = b.dir ∙ a.dir }

  pub latch-Post :
      (f : RwLatch → Option RwLatch) (t : HashTable P) → Post (latch f t) (λ _ t'. Same t t')
  latch-Post f t = go (f t.table_latch)
    where
      go :
          (o : Option RwLatch)
          → Post {0} {A = Unit {0}}
              (elim o [ none ↦ waits | some l ↦ done (tt, record t { table_latch = l }) ])
              (λ _ t'. Same t t')
      go none = tt
      go (some l) = record { id = refl; dir = refl }

  pub assert_pool-Post :
      (f : P → Option P) (t : HashTable P)
      → ((p' : P) → f t.pool ≡ some p' → (x : ℕ) → pages.directory p' x ≡ pages.directory t.pool x)
      → Post (assert_pool f t) (λ _ t'. Same t t')
  assert_pool-Post f t k = go (f t.pool) k
    where
      go :
          (o : Option P)
          → ((p' : P) → o ≡ some p' → (x : ℕ) → pages.directory p' x ≡ pages.directory t.pool x)
          → Post {0} {A = Unit {0}}
              (elim o [ none ↦ failed | some p ↦ done (tt, record t { pool = p }) ])
              (λ _ t'. Same t t')
      go none k = tt
      go (some p) k = record { id = refl; dir = k p refl t.directory_page_id }

  pub fetch_directory_page-Post :
      (keeps : Keeps) (t : HashTable P)
      → (t.directory_page_id == invalid_page_id) ≡ false
      → Post
          (fetch_directory_page pages t)
          (λ r t'. (r.0 ≡ t.directory_page_id) × (r.1 ≡ directory_of pages t) × Same t t')
  unfolding fetch_directory_page
  fetch_directory_page-Post keeps t made =
      rw (made, made, fetch_directory_page, ◌>>◌, ◌>>=◌, where_so, directory_id)
        (bind-Post (assert_pool (λ p. pages.fetch_page p t.directory_page_id)) _ t
          (λ _ t'. Same t t') _
          (assert_pool-Post (λ p. pages.fetch_page p t.directory_page_id) t
            (λ p' e x. keeps.fetch_keeps t.pool p' t.directory_page_id x e))
          (λ a t' s. (refl, ap (λ i. pages.directory t'.pool i) (sym s.id) ∙ s.dir, s)))

  pub fetch_bucket_page-Post :
      (keeps : Keeps) (t : HashTable P) (id : ℕ)
      → Post (fetch_bucket_page pages id t) (λ _ t'. Same t t')
  unfolding fetch_bucket_page
  fetch_bucket_page-Post keeps t id =
      bind-Post (assert_pool (λ p. pages.fetch_page p id)) _ t (λ _ t'. Same t t') _
        (assert_pool-Post (λ p. pages.fetch_page p id) t
          (λ p' e x. keeps.fetch_keeps t.pool p' id x e))
        (λ a t' s. s)

  pub check-Post :
      {A : Type 0} (c : Checked A) (t : HashTable P)
      → Post (check c t) (λ a t'. (c ≡ returns a) × (t' ≡ t))
  check-Post (returns a) t = (refl, refl)
  check-Post asserts t = tt

  pub check-same {ι} :
      {A : Type ι} (c : Checked A) (t : HashTable P) → Post (check c t) (λ a t'. t' ≡ t)
  check-same (returns a) t = refl
  check-same asserts t = tt

  pub expect-Post :
      {A : Type 0} (o : Option A) (t : HashTable P)
      → Post (expect o t) (λ a t'. (o ≡ some a) × (t' ≡ t))
  expect-Post (some a) t = (refl, refl)
  expect-Post none t = tt

  pub new_page-Post :
      (t : HashTable P)
      → Post (new_page pages t) (λ _ t'. t'.directory_page_id ≡ t.directory_page_id)
  new_page-Post t = go (pages.new_page t.pool)
    where
      go :
          (o : Option (ℕ × P))
          → Post {0} {A = ℕ}
              (elim o [ none ↦ failed | some (id, p) ↦ done (id, record t { pool = p }) ])
              (λ _ t'. t'.directory_page_id ≡ t.directory_page_id)
      go none = tt
      go (some (id, p)) = refl

  pub unpin-Post :
      (keeps : Keeps) (t : HashTable P) (id : ℕ) (dirty : Bool)
      → Post (assert_pool (λ p. pages.unpin_page p id dirty) t) (λ _ t'. Same t t')
  unpin-Post keeps t id dirty =
      assert_pool-Post (λ p. pages.unpin_page p id dirty) t
        (λ p' e x. keeps.unpin_keeps t.pool p' id x dirty e)
