-- ===== src/Database/UtxoView/Saved.antt =====
-- Reading an entry after its view was saved.
use btm_stats.Base.{
  ◌≡◌, ◌≢◌, refl, ap, ◌∙◌, Bool, not, ◌&&◌, Option, none, some, List, [], ◌∷◌, ◌++◌, All,
  if◌then◌else◌, if_decided, if_decided-yes, if_decided-no, Bool-cases, inl, inr,
}
use btm_stats.Errors.{Error}
use btm_stats.Encoding.Reader.{Result, ok, err}
use btm_stats.Bc.Hash.{Hash}
use btm_stats.Database.UtxoView.{
  UtxoEntry, Bytes, bytes_discrete, Db, Operation, delete, set_value, apply, write_batch,
  cannot_find_utxo, calc_utxo_key, unmarshaled, found, get_utxo, marshaled, save_utxo_view,
}

-- A saved entry that is spent is deleted, unless it is of a coinbase.
abbrev pub gone : UtxoEntry → Bool
gone entry = entry.spent && not entry.is_coin_base

module _ (text : Hash → Bytes) (marshal : UtxoEntry → Result Bytes)
    (unmarshal : Bytes → Result UtxoEntry) (text_inj : (g h : Hash) → text g ≡ text h → g ≡ h)
    (round : (e : UtxoEntry) → (b : Bytes) × (marshal e ≡ ok b) × (unmarshal b ≡ ok e)) where
  abbrev key : Hash → Bytes
  key = calc_utxo_key text marshal unmarshal

  key_other : (g h : Hash) → g ≢ h → key g ≢ key h
  key_other g h n e = n (text_inj g h (cc))

  abbrev save : List (Hash × UtxoEntry) → List Operation × Option Error
  save = save_utxo_view text marshal unmarshal

  -- What the database has at the key of an entry.
  abbrev value_of : UtxoEntry → Option Bytes
  value_of e = if gone e then none else some (round e).0

  op_of :
      (h : Hash) (e : UtxoEntry) (view : List (Hash × UtxoEntry))
      → (op : Operation) × (save ((h, e) ∷ view) ≡ (op ∷ (save view).0, (save view).1))
        × ((db : Db) (k : Bytes)
            → apply op db k ≡ if_decided (bytes_discrete (key h) k) (value_of e) (db k))
  unfolding save_utxo_view
  op_of h e view = elim (Bool-cases (gone e)) [
    | inl q ↦ (delete (key h), rw q refl, λ db k. rw q)
    | inr q ↦
        let (b, m, u) = round e in
        (
          set_value (key h) b,
          rw q (ap (λ r. marshaled text marshal unmarshal (key h) r (save view)) m),
          λ db k. rw q,
        )
  ]

  -- The entries are of other hashes.
  abbrev pub NotIn : Hash → List (Hash × UtxoEntry) → Type 0
  NotIn h view = All (λ x. x.0 ≢ h) view

  no_error : (view : List (Hash × UtxoEntry)) → (save view).1 ≡ none
  unfolding save_utxo_view
  no_error [] = refl
  no_error ((h, e) ∷ view) = let (op, s, a) = op_of h e view in ap (λ x. x.1) s ∙ no_error view

  keeps :
      (h : Hash) (view : List (Hash × UtxoEntry)) (db : Db)
      → NotIn h view
      → write_batch (save view).0 db (key h) ≡ db (key h)
  unfolding save_utxo_view
  keeps h [] db n = refl
  keeps h ((g, e) ∷ view) db (n, ns) =
      let (op, s, a) = op_of g e view in
      ap (λ x. write_batch x.0 db (key h)) s
      ∙ keeps h view (apply op db) ns
      ∙ a db (key h)
      ∙ if_decided-no (bytes_discrete (key g) (key h)) _ _ (key_other g h n)

  saved_value :
      (h : Hash) (e : UtxoEntry) (before after : List (Hash × UtxoEntry)) (db : Db)
      → NotIn h after
      → write_batch (save (before ++ ((h, e) ∷ after))).0 db (key h) ≡ value_of e
  saved_value h e [] after db n =
      let (op, s, a) = op_of h e after in
      ap (λ x. write_batch x.0 db (key h)) s
      ∙ keeps h after (apply op db) n
      ∙ a db (key h)
      ∙ if_decided-yes (bytes_discrete (key h) (key h)) _ _ refl
  saved_value h e ((g, x) ∷ before) after db n =
      let (op, s, a) = op_of g x (before ++ ((h, e) ∷ after)) in
      ap (λ y. write_batch y.0 db (key h)) s ∙ saved_value h e before after (apply op db) n

  value-found :
      (e : UtxoEntry)
      → found text marshal unmarshal (value_of e) ≡ (if gone e then err cannot_find_utxo else ok e)
  value-found e = elim (Bool-cases (gone e)) [
    | inl q ↦ rw q refl
    | inr q ↦ rw q (ap (unmarshaled text marshal unmarshal) (round e).2)
  ]

  -- Where distinct hashes have distinct texts and an entry is unmarshaled from what it was marshaled to:
  -- saving a view gives no error, and after its batch is written the entry of a hash is read
  -- back, but for one that is spent and of no coinbase, which is not found.
  pub get_utxo-save_utxo_view :
      (h : Hash) (e : UtxoEntry) (before after : List (Hash × UtxoEntry)) (db : Db)
      → NotIn h after
      → ((save_utxo_view text marshal unmarshal (before ++ ((h, e) ∷ after))).1 ≡ none)
        × (get_utxo text marshal unmarshal
              (write_batch
                (save_utxo_view text marshal unmarshal (before ++ ((h, e) ∷ after))).0
                db)
              h
            ≡ (if e.spent && not e.is_coin_base then err cannot_find_utxo else ok e))
  unfolding get_utxo
  get_utxo-save_utxo_view h e before after db n = (
    no_error (before ++ ((h, e) ∷ after)),
    ap (found text marshal unmarshal) (saved_value h e before after db n) ∙ value-found e,
  )
