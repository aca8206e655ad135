-- ===== src/Api/Files/Tests.antt =====
-- A full store of one file, and another file put.
use superl8_serve.Prelude.{refl, [], ◌∷◌, arith}
use superl8_serve.Api.Files.{FileStore, put}
use superl8_serve.Api.Files.Fifo.{Puts, put-Puts}

abbrev full : FileStore
full = record {
  content = (0, 65 ∷ 66 ∷ []) ∷ [];
  meta = (0, record { id = 0; bytes = 2; filename = 97 ∷ []; purpose = 98 ∷ [] }) ∷ [];
  max_files = 1;
}

put-Puts_example : Puts 7 (67 ∷ []) full (put 7 (67 ∷ []) (97 ∷ []) (98 ∷ []) full)
put-Puts_example =
    put-Puts 7 (67 ∷ []) (97 ∷ []) (98 ∷ []) full (record { same = refl; bounded = omega arith })
      refl
