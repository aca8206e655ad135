-- ===== src/Api/Files/Fifo.antt =====
-- api/batches.py: the order and the bound of the file store.
use superl8_serve.Prelude.{
  ℕ, zero, suc, ◌-◌, ◌≤◌, ◌<◌, ◌≡◌, refl, sym, ap, subst, ◌∙◌, List, [], ◌∷◌, ◌++◌, some, true,
  if◌then◌else◌, ◌==◌, ltb, length, drop, length-append, length-drop, drop-append_left, count,
  arith, Bool-cases, inl, inr,
}
use superl8_serve.Api.Files.{
  FileObject, FileStore, Dict, keys, find, assign, evict, put, content_of, meta_of,
}

module _ {A : Type 0} where
  length-keys : (d : Dict A) → length (keys d) ≡ length d
  length-keys [] = refl
  length-keys ((k, v) ∷ d) = ap suc (length-keys d)

  keys-drop : (n : ℕ) (d : Dict A) → keys (drop n d) ≡ drop n (keys d)
  keys-drop zero d = refl
  keys-drop (suc n) [] = refl
  keys-drop (suc n) ((k, v) ∷ d) = keys-drop n d

  assign-new :
      (k : ℕ) (v : A) (d : Dict A) → count k (keys d) ≡ 0 → assign k v d ≡ d ++ ((k, v) ∷ [])
  assign-new k v [] h = refl
  assign-new k v ((j, w) ∷ d) h = elim (Bool-cases (j == k)) [
    | inl is ↦ ground (arith, is, h)
    | inr other ↦ rw other (ap (◌∷◌ (j, w)) (assign-new k v d (ground (arith, other, h))))
  ]

  keys-append : (c d : Dict A) → keys (c ++ d) ≡ keys c ++ keys d
  keys-append [] d = refl
  keys-append ((k, v) ∷ c) d = ap (◌∷◌ k) (keys-append c d)

  find-last :
      (n k : ℕ) (v : A) (d : Dict A)
      → count k (keys d) ≡ 0
      → find k (drop n d ++ ((k, v) ∷ [])) ≡ some v
  find-last zero k v [] h = ground arith
  find-last (suc n) k v [] h = ground arith
  find-last zero k v ((j, w) ∷ d) h = ground (arith, find-last zero k v d, h)
  find-last (suc n) k v ((j, w) ∷ d) h = find-last n k v d (ground (arith, h))

-- What is dropped from a list of `suc n` where `m` are kept.
drop-kept {ℓ} :
    {A : Type ℓ} (m n : ℕ) (x : A) (xs : List A)
    → drop (suc n - m) (x ∷ xs) ≡ (if ltb m (suc n) then drop (n - m) xs else x ∷ xs)
drop-kept m n x xs = elim (Bool-cases (ltb m (suc n))) [
  | inl full ↦
      rw full (ap (λ i. drop i (x ∷ xs)) {x = suc n - m} {y = suc (n - m)} (ground (arith, full)))
  | inr room ↦ rw room (ap (λ i. drop i (x ∷ xs)) {x = suc n - m} {y = 0} (ground (arith, room)))
]

drop-empty {ℓ} : {A : Type ℓ} (n : ℕ) → drop {A = A} n [] ≡ []
drop-empty zero = refl
drop-empty (suc n) = refl

-- The oldest are dropped from both dicts, until at most `m` are left.
evict-drop :
    (m : ℕ) (content : Dict (List ℕ)) (meta : Dict FileObject)
    → keys content ≡ keys meta
    → evict m content meta ≡ (drop (length content - m) content, drop (length content - m) meta)
unfolding evict
evict-drop m [] [] same = rw (drop-empty (0 - m), drop-empty (0 - m)) refl
evict-drop m [] ((j, w) ∷ meta) same = grind arith
evict-drop m ((k, v) ∷ content) [] same = grind arith
evict-drop m ((k, v) ∷ content) ((j, w) ∷ meta) same =
    let first : (j == k) ≡ true = grind arith in
    let later : keys content ≡ keys meta = grind arith in
    elim (Bool-cases (ltb m (suc (length content)))) [
      | inl full ↦
          rw
            (
              drop-kept m (length content) (k, v) content,
              drop-kept m (length content) (j, w) meta,
              full,
              first,
            )
            (evict-drop m content meta later)
      | inr room ↦
          rw
            (
              drop-kept m (length content) (k, v) content,
              drop-kept m (length content) (j, w) meta,
              room,
            )
            refl
    ]

-- The content and what is known of it stand under the same ids, at most `max_files` of them.
pub record IsValid (s : FileStore) : Type 0 where
  pub same : keys s.content ≡ keys s.meta
  pub bounded : length s.content ≤ s.max_files

pub record Puts (id : ℕ) (content : List ℕ) (s : FileStore) (r : FileStore × FileObject)
    : Type 0 where
  pub valid : IsValid r.0
  pub queue :
      keys r.0.content ≡ drop (suc (length s.content) - s.max_files) (keys s.content ++ (id ∷ []))
  pub reads : 0 < s.max_files → (content_of id r.0 ≡ some content) × (meta_of id r.0 ≡ some r.1)

keys_both :
    (id : ℕ) (content : List ℕ) (obj : FileObject) (s : FileStore)
    → keys s.content ≡ keys s.meta
    → keys (s.content ++ ((id, content) ∷ [])) ≡ keys (s.meta ++ ((id, obj) ∷ []))
keys_both id content obj s same =
    keys-append s.content ((id, content) ∷ [])
    ∙ ap (λ ks. ks ++ (id ∷ [])) same
    ∙ sym (keys-append s.meta ((id, obj) ∷ []))

put_is :
    (id : ℕ) (content filename purpose : List ℕ) (s : FileStore)
    → IsValid s
    → count id (keys s.content) ≡ 0
    → put id content filename purpose s ≡ (
      record s {
        content = drop (suc (length s.content) - s.max_files) (s.content ++ ((id, content) ∷ []));
        meta = drop (suc (length s.content) - s.max_files) (
            s.meta
            ++ ((
              id,
              record { id = id; bytes = length content; filename = filename; purpose = purpose },
            )
                ∷ []));
      },
      record { id = id; bytes = length content; filename = filename; purpose = purpose },
    )
unfolding put
put_is id content filename purpose s v new =
    let obj : FileObject = record {
      id = id;
      bytes = length content;
      filename = filename;
      purpose = purpose;
    } in
    let c = s.content ++ ((id, content) ∷ []) in
    let m = s.meta ++ ((id, obj) ∷ []) in
    let len : length c - s.max_files ≡ suc (length s.content) - s.max_files =
      omega (arith, length-append s.content ((id, content) ∷ [])) in
    ap {A = Dict (List ℕ) × Dict FileObject} {B = FileStore × FileObject}
      (λ r. (record s { content = r.0; meta = r.1 }, obj))
      (ap (λ c. evict s.max_files c (assign id obj s.meta)) (assign-new id content s.content new)
        ∙ ap (λ m. evict s.max_files c m)
            (assign-new id obj s.meta (subst (λ ks. count id ks ≡ 0) v.same new))
        ∙ evict-drop s.max_files c m (keys_both id content obj s v.same)
        ∙ ap (λ n. (drop n c, drop n m)) len)

-- `put` under a new id keeps the store valid and bounded, appends the id and drops the oldest ones
-- that are too many; where the store may hold a file, the new one is read back.
pub put-Puts :
    (id : ℕ) (content filename purpose : List ℕ) (s : FileStore)
    → IsValid s
    → count id (keys s.content) ≡ 0
    → Puts id content s (put id content filename purpose s)
put-Puts id content filename purpose s v new =
    let obj : FileObject = record {
      id = id;
      bytes = length content;
      filename = filename;
      purpose = purpose;
    } in
    let n = suc (length s.content) - s.max_files in
    let new_meta : count id (keys s.meta) ≡ 0 = subst (λ ks. count id ks ≡ 0) v.same new in
    let sizes : length s.meta ≡ length s.content =
      sym (length-keys s.meta) ∙ ap length (sym v.same) ∙ length-keys s.content in
    subst (Puts id content s) (sym (put_is id content filename purpose s v new)) (record {
      valid = record {
        same =
            keys-drop n (s.content ++ ((id, content) ∷ []))
            ∙ ap (drop n) (keys_both id content obj s v.same)
            ∙ sym (keys-drop n (s.meta ++ ((id, obj) ∷ [])));
        bounded = omega (
          arith,
          length-drop n (s.content ++ ((id, content) ∷ [])),
          length-append s.content ((id, content) ∷ []),
        );
      };
      queue =
          keys-drop n (s.content ++ ((id, content) ∷ []))
          ∙ ap (drop n) (keys-append s.content ((id, content) ∷ []));
      reads = λ pos.
          unfold content_of meta_of in
          (
            ap (find id) (drop-append_left n s.content ((id, content) ∷ []) (omega (arith, pos)))
                ∙ find-last n id content s.content new,
            ap (find id) (drop-append_left n s.meta ((id, obj) ∷ []) (omega (arith, pos, sizes)))
                ∙ find-last n id obj s.meta new_meta,
          );
    })
