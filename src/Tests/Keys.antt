-- ===== src/Tests/Keys.antt =====
-- The key of a document of mailindex, with the bytes of `mailmux` and of `42`.
use mailmux.Base.{List, arith, codes, nat_eq, refl, some, ℕ, ◌≡◌}
use mailmux.Mailindex.Key.{decimal_bytes, decode_key, decode_key-document_key, document_key}

abbrev mailmux_bytes : List ℕ
mailmux_bytes = codes "mailmux"

abbrev id_bytes : List ℕ
id_bytes = codes "42"

key_bytes : document_key mailmux_bytes id_bytes ≡ codes "7:mailmux42"
unfolding document_key decimal_bytes nat_eq
key_bytes = refl

decode_key-document_key_example :
    decode_key (document_key mailmux_bytes id_bytes) ≡ some (mailmux_bytes, id_bytes)
decode_key-document_key_example =
    decode_key-document_key mailmux_bytes id_bytes refl refl refl (omega arith)
