-- ===== src/Mirror.antt =====
-- packages/db/prisma/schema.prisma and the calls of the generated Prisma client, which is not part
-- of the repository: the tables are parameters of the model, with the documented behaviour of the
-- calls as laws. A call of the database that fails, and a writer that comes between two calls of one
-- operation, are not part of the model.
pub mod Memory
use tagwise_identity_protoco.Prelude.{
  ℕ, Text, Bool, true, false, List, Option, none, some, In, ◌≡◌, ◌≢◌, ◌↔◌,
}

pub data IdentityStatus : Type 0 where
  active blocked : IdentityStatus

pub record Identity : Type 0 where
  pub id : Text
  pub tag : Text
  pub owner : Text
  pub wallet : Text
  pub bump : ℕ
  pub display_name : Option Text
  pub avatar : Option Text
  pub bio : Option Text
  pub preferred_token : Option Text
  pub verified : Bool
  pub merchant : Bool
  pub status : IdentityStatus
  pub last_applied_slot : ℕ
  pub created_at : ℕ

unfoldable pub is_active : Identity → Bool
is_active row = elim row.status [ active ↦ true | blocked ↦ false ]

-- The `data` of an update: a column that is absent is left as it stands.
pub record IdentityUpdate : Type 0 where
  pub owner : Option Text
  pub wallet : Option Text
  pub bump : Option ℕ
  pub display_name : Option (Option Text)
  pub avatar : Option (Option Text)
  pub bio : Option (Option Text)
  pub preferred_token : Option (Option Text)
  pub status : Option IdentityStatus
  pub last_applied_slot : Option ℕ

abbrev pub no_update : IdentityUpdate
no_update = record {
  owner = none;
  wallet = none;
  bump = none;
  display_name = none;
  avatar = none;
  bio = none;
  preferred_token = none;
  status = none;
  last_applied_slot = none;
}

-- The `data` of a create, as far as the program gives it.
pub record IdentityCreate : Type 0 where
  pub tag : Text
  pub owner : Text
  pub wallet : Text
  pub bump : ℕ
  pub last_applied_slot : ℕ
  pub status : Option IdentityStatus

abbrev pub column {ℓ} : {A : Type ℓ} → Option A → A → A
column none old = old
column (some new) old = new

abbrev pub written : IdentityUpdate → Identity → Identity
written update row = record {
  id = row.id;
  tag = row.tag;
  owner = column update.owner row.owner;
  wallet = column update.wallet row.wallet;
  bump = column update.bump row.bump;
  display_name = column update.display_name row.display_name;
  avatar = column update.avatar row.avatar;
  bio = column update.bio row.bio;
  preferred_token = column update.preferred_token row.preferred_token;
  verified = row.verified;
  merchant = row.merchant;
  status = column update.status row.status;
  last_applied_slot = column update.last_applied_slot row.last_applied_slot;
  created_at = row.created_at;
}

-- A new row: the columns given, the defaults of the schema, a generated id and the time.
abbrev pub created_row : Text × ℕ → IdentityCreate → Identity
created_row fresh given = record {
  id = fresh.0;
  tag = given.tag;
  owner = given.owner;
  wallet = given.wallet;
  bump = given.bump;
  display_name = none;
  avatar = none;
  bio = none;
  preferred_token = none;
  verified = false;
  merchant = false;
  status = column given.status active;
  last_applied_slot = given.last_applied_slot;
  created_at = fresh.1;
}

-- The table of identities. `tag` is unique, so an update on a tag and a condition on the row
-- changes at most one row; its number is the count. `create` throws (`none`) on a tag that exists,
-- and `update`, which answers with the new row, on one that does not.
pub record IdentityTable : Type 1 where
  pub Table : Type 0
  pub find_unique : Table → Text → Option Identity
  pub update_many : Text → (Identity → Bool) → IdentityUpdate → Table → ℕ × Table
  pub create : IdentityCreate → Table → Option Table
  pub update : Text → IdentityUpdate → Table → Option (Identity × Table)
  pub find_many : (Identity → Bool) → Table → List Identity
  pub fresh : Table → Text × ℕ
  pub find_unique-tag :
      (s : Table) (t : Text) (row : Identity) → find_unique s t ≡ some row → row.tag ≡ t
  pub update_many-match :
      (t : Text) (p : Identity → Bool) (update : IdentityUpdate) (s : Table) (row : Identity)
      → find_unique s t ≡ some row
      → p row ≡ true
      → ((update_many t p update s).0 ≡ 1)
        × (find_unique (update_many t p update s).1 t ≡ some (written update row))
  pub update_many-miss :
      (t : Text) (p : Identity → Bool) (update : IdentityUpdate) (s : Table)
      → ((row : Identity) → find_unique s t ≡ some row → p row ≡ false)
      → ((update_many t p update s).0 ≡ 0) × ((update_many t p update s).1 ≡ s)
  pub update_many-other :
      (t : Text) (p : Identity → Bool) (update : IdentityUpdate) (s : Table) (other : Text)
      → other ≢ t
      → find_unique (update_many t p update s).1 other ≡ find_unique s other
  pub create-absent :
      (given : IdentityCreate) (s : Table)
      → find_unique s given.tag ≡ none
      → (s' : Table) × (create given s ≡ some s')
        × (find_unique s' given.tag ≡ some (created_row (fresh s) given))
        × ((other : Text) → other ≢ given.tag → find_unique s' other ≡ find_unique s other)
  pub update-found :
      (t : Text) (given : IdentityUpdate) (s : Table) (row : Identity)
      → find_unique s t ≡ some row
      → (s' : Table) × (update t given s ≡ some (written given row, s'))
        × (find_unique s' t ≡ some (written given row))
        × ((other : Text) → other ≢ t → find_unique s' other ≡ find_unique s other)
  pub find_many-In :
      (p : Identity → Bool) (s : Table) (row : Identity)
      → In row (find_many p s) ↔ ((find_unique s row.tag ≡ some row) × (p row ≡ true))

-- The row of `indexer_state` under the key "default".
pub record CursorTable : Type 1 where
  pub Table : Type 0
  pub find_unique : Table → Option ℕ
  pub update_many : (ℕ → Bool) → ℕ → Table → ℕ × Table
  pub create : ℕ → Table → Table
  pub update_many-match :
      (p : ℕ → Bool) (slot : ℕ) (s : Table) (old : ℕ)
      → find_unique s ≡ some old
      → p old ≡ true
      → ((update_many p slot s).0 ≡ 1) × (find_unique (update_many p slot s).1 ≡ some slot)
  pub update_many-miss :
      (p : ℕ → Bool) (slot : ℕ) (s : Table)
      → ((old : ℕ) → find_unique s ≡ some old → p old ≡ false)
      → ((update_many p slot s).0 ≡ 0) × ((update_many p slot s).1 ≡ s)
  pub create-absent :
      (slot : ℕ) (s : Table) → find_unique s ≡ none → find_unique (create slot s) ≡ some slot
