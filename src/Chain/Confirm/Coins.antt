-- ===== src/Chain/Confirm/Coins.antt =====
-- What the tables of src/kernel/blockchain.cpp say of each output: unspent, spent or neither.
use crypto_kernel.Prelude.{ℕ, ◌≡◌, ◌∙◌, Option, none, List, elem, ◌==◌, if◌then◌else◌}
use crypto_kernel.Env.{Env}
use crypto_kernel.OrderedMap.{Map, lookup, IsSorted}
use crypto_kernel.Outcome.{ok}
use crypto_kernel.Types.Stored.{DbOutput}
use crypto_kernel.Chain.{Tables}

module _ (env : Env) where
  -- What a table says of an identifier.
  abbrev pub Coins : Type 0
  Coins = ℕ → Option (DbOutput env)

  -- The outputs of the tables are sorted, and are `unspent` and `spent`.
  pub record Holds (unspent spent : Coins) (t : Tables env) : Type 0 where
    pub sorted_utxos : IsSorted t.utxos
    pub sorted_stxos : IsSorted t.stxos
    pub utxo : (x : ℕ) → lookup x t.utxos ≡ unspent x
    pub stxo : (x : ℕ) → lookup x t.stxos ≡ spent x

  abbrev pub set : ℕ → Option (DbOutput env) → Coins → Coins
  set id v coins x = if x == id then v else coins x

  pub ok-injective : {t t' : Tables env} → ok t ≡ ok t' → t ≡ t'
  ok-injective h = cc

  -- The tables with new outputs, which are those of `t` but for one identifier each.
  pub Holds-update :
      {u' s' : Coins} {utxos stxos : Map (DbOutput env)}
      → IsSorted utxos
      → IsSorted stxos
      → ((x : ℕ) → lookup x utxos ≡ u' x)
      → ((x : ℕ) → lookup x stxos ≡ s' x)
      → {t' : Tables env} → t'.utxos ≡ utxos
      → t'.stxos ≡ stxos
      → Holds u' s' t'
  Holds-update su ss hu hs eu es = record {
    sorted_utxos = rw eu su;
    sorted_stxos = rw es ss;
    utxo = λ x. rw eu (hu x);
    stxo = λ x. rw es (hs x);
  }

  -- Several identifiers, one after the other.
  abbrev pub taken : List ℕ → Coins → Coins
  taken ids coins x = if elem x ids then none else coins x

  abbrev pub moved : List ℕ → Coins → Coins → Coins
  moved ids from to x = if elem x ids then from x else to x

  pub Holds-ext :
      (t : Tables env) {u s u' s' : Coins}
      → ((x : ℕ) → u x ≡ u' x)
      → ((x : ℕ) → s x ≡ s' x)
      → Holds u s t
      → Holds u' s' t
  Holds-ext t hu hs h = record {
    sorted_utxos = h.sorted_utxos;
    sorted_stxos = h.sorted_stxos;
    utxo = λ x. h.utxo x ∙ hu x;
    stxo = λ x. h.stxo x ∙ hs x;
  }
