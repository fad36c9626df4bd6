-- ===== src/Socrata/Stream/Cursors.antt =====
-- How the cursor of a stream moves.
use civic_soda_quack.Prelude.{
  ◌+◌, ◌≡◌, refl, inl, inr, String, true, Option, none, some, List, length, last?, arith,
  Bool-cases,
}
use civic_soda_quack.Prelude.Maps.{get}
use civic_soda_quack.Socrata.{Json, Row, usable_id, socrata_id_of}
use civic_soda_quack.Socrata.Stream.{Cursor, not_empty, rekey, seek_on, advance}

-- A usable `:id` is not empty.
usable :
    {F : Type 0} (v : Option (Json F)) (id : String) → usable_id v ≡ some id → not_empty id ≡ true
unfolding usable_id
usable v id h = ground arith

pub id_not_empty :
    {F : Type 0} (row : Row F) (id : String) → socrata_id_of row ≡ some id → not_empty id ≡ true
unfolding socrata_id_of
id_not_empty row id h = usable (get ":id" row) id h

rekey_fetched :
    (c : Cursor) (o : Option String)
    → ((rekey c o).fetched ≡ c.fetched) × ((rekey c o).offset ≡ c.offset)
unfolding rekey
rekey_fetched c none = (refl, refl)
rekey_fetched c (some id) = (refl, refl)

rekey_keyed :
    (c : Cursor) (o : Option String) → (rekey c o).keyset ≡ true → o ≡ some (rekey c o).last_id
unfolding rekey
rekey_keyed c none h = cc
rekey_keyed c (some id) h = refl

seek_on_fetched :
    {F : Type 0} (c : Cursor) (o : Option (Row F))
    → ((seek_on c o).fetched ≡ c.fetched) × ((seek_on c o).offset ≡ c.offset)
unfolding seek_on
seek_on_fetched c none = (refl, refl)
seek_on_fetched c (some row) = rekey_fetched c (socrata_id_of row)

seek_on_keyed :
    {F : Type 0} (c : Cursor) (row : Row F)
    → (seek_on c (some row)).keyset ≡ true
    → socrata_id_of row ≡ some (seek_on c (some row)).last_id
unfolding seek_on
seek_on_keyed c row = rekey_keyed c (socrata_id_of row)

-- Both counts grow by the page.
pub advance_counts :
    {F : Type 0} (c : Cursor) (page : List (Row F))
    → ((advance c page).fetched ≡ c.fetched + length page)
      × ((advance c page).offset ≡ c.offset + length page)
unfolding advance
advance_counts c page = elim (Bool-cases c.keyset) [
  | inl k ↦ rw k (seek_on_fetched _ (last? page))
  | inr o ↦ rw o (refl, refl)
]

-- With a key to seek on, the cursor has that of the page's last row.
pub advance_keyed :
    {F : Type 0} (c : Cursor) (page : List (Row F)) (row : Row F)
    → last? page ≡ some row
    → (advance c page).keyset ≡ true
    → socrata_id_of row ≡ some (advance c page).last_id
unfolding advance
advance_keyed c page row e = elim (Bool-cases c.keyset) [
  | inl k ↦ rw (k, e) (seek_on_keyed _ row)
  | inr o ↦ rw o (λ h. cc)
]
