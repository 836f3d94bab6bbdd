-- ===== src/MapShard/State.antt =====
-- The items that a map shard holds: full past shards in the order of creation, and the current one.
use schema_js.Prelude.{
  flatten, ℕ, suc, ◌+◌, ◌<◌, ◌≤◌, ◌^◌, ◌≡◌, ◌≢◌, refl, ap, List, [], ◌∷◌, ◌++◌, true, some, All,
  length, arith, inl, inr, Bool-cases,
}
use schema_js.Prelude.Results.{Result, ok}
use schema_js.Shard.Errors.{ShardErrors}
use schema_js.Prelude.Bytes.{Bytes}
use schema_js.Storage.File.{Platform}
use schema_js.Storage.Handler.{FileName}
use schema_js.Shard.Trait.{Shard}
use schema_js.Shard.Laws.{ShardView}
use schema_js.Uuid.{UuidApi, IsPlain, underscore}
use schema_js.MapShard.Names.{extract_shard_signature, generate_shard_name}
use schema_js.MapShard.Ops.{MapShard, World, text_eq, index_map_insert}

pub text_eq→eq : (xs ys : List ℕ) → text_eq xs ys ≡ true → xs ≡ ys
text_eq→eq [] [] h = refl
text_eq→eq [] (y ∷ ys) h = cc
text_eq→eq (x ∷ xs) [] h = cc
text_eq→eq (x ∷ xs) (y ∷ ys) h = ground (arith, text_eq→eq xs ys)

-- A key that is not in the map is put at its end.
pub index_map_insert_new :
    {V : Type 0} (key : List ℕ) (v : V) (l : List (List ℕ × V))
    → All (λ p. p.0 ≢ key) l
    → index_map_insert key v l ≡ l ++ ((key, v) ∷ [])
unfolding index_map_insert
index_map_insert_new key v [] h = refl
index_map_insert_new key v ((k, w) ∷ l) h = elim (Bool-cases (text_eq k key)) [
  | inl same ↦ absurd (h.0 (text_eq→eq k key same))
  | inr other ↦ rw other (ap (λ r. (k, w) ∷ r) (index_map_insert_new key v l h.1))
]

-- What the outside must supply: a POSIX system, nothing yet at the paths of new shards, and ids
-- that differ from shard to shard, up to the shard `limit`.
pub record IsGood {Uuid : Type 0} ⦃u : UuidApi Uuid⦄ (w : World Uuid) (limit : ℕ) : Type 0 where
  pub limit_fits : limit < 2 ^ 64
  pub on_posix : w.platform ≡ Platform.posix
  pub empty_disk :
      (prefix : List ℕ) (number : ℕ)
      → w.disk (generate_shard_name prefix (w.drawn number) number) ≡ []
  pub distinct : (i j : ℕ) → i < j → j ≤ limit → u.to_string (w.drawn j) ≢ u.to_string (w.drawn i)

module _ {S Opts Uuid : Type 0} ⦃u : UuidApi Uuid⦄ (ops : Shard S Opts Uuid) (v : ShardView S Opts)
    (w : World Uuid) (limit k : ℕ) where
  -- Each past shard is full with its chunk.
  abbrev pub Pasts : List (List ℕ × S) → List (List Bytes) → Type 0
  Pasts [] [] = Unit
  Pasts [] (c ∷ cs) = ⊥
  Pasts (p ∷ ps) [] = ⊥
  Pasts (p ∷ ps) (c ∷ cs) = (v.Holds k p.1 c × (length c ≡ k)) × Pasts ps cs

  pub record Contains (m : MapShard S Opts) (chunks : List (List Bytes)) (current : List Bytes)
      (number : ℕ) : Type 0 where
    pub past : Pasts m.past_master_shards chunks
    pub holds : v.Holds k m.current_master_shard current
    pub config : v.capacity m.config ≡ k
    pub suits : v.Suits m.config
    pub stem : List ℕ
    pub prefix : m.shard_prefix ≡ stem ++ (underscore ∷ [])
    pub plain : All IsPlain stem
    pub key : List ℕ
    pub path : FileName
    pub named :
        extract_shard_signature (ops.get_path m.current_master_shard) ≡ some (number, key, path)
    pub key_new : All (λ p. p.0 ≢ key) m.past_master_shards
    pub later_new :
        (j : ℕ)
        → number < j
        → j ≤ limit
        → (u.to_string (w.drawn j) ≢ key)
          × All (λ p. p.0 ≢ u.to_string (w.drawn j)) m.past_master_shards

  -- The outcome of an insertion into a map shard of the number `before` with `past` past shards: one
  -- that contains `all`, its number moved on by one for each new shard.
  pub record Outcome (before past : ℕ) (all : List Bytes)
      (r : Result ShardErrors (MapShard S Opts × ℕ)) : Type 0 where
    pub after : MapShard S Opts
    pub position : ℕ
    pub chunks : List (List Bytes)
    pub current : List Bytes
    pub number : ℕ
    pub returns : r ≡ ok (after, position)
    pub contains : Contains after chunks current number
    pub items : flatten chunks ++ current ≡ all
    pub numbered : number + past ≡ before + length chunks

  pub Pasts-append :
      (ps : List (List ℕ × S)) (cs : List (List Bytes)) (p : List ℕ × S) (c : List Bytes)
      → Pasts ps cs
      → v.Holds k p.1 c
      → length c ≡ k
      → Pasts (ps ++ (p ∷ [])) (cs ++ (c ∷ []))
  Pasts-append [] [] p c past h e = ((h, e), tt)
  Pasts-append [] (d ∷ ds) p c past h e = absurd past
  Pasts-append (q ∷ qs) [] p c past h e = absurd past
  Pasts-append (q ∷ qs) (d ∷ ds) p c past h e = (past.0, Pasts-append qs ds p c past.1 h e)

  pub length-Pasts :
      (ps : List (List ℕ × S)) (cs : List (List Bytes)) → Pasts ps cs → length ps ≡ length cs
  length-Pasts [] [] past = refl
  length-Pasts [] (d ∷ ds) past = absurd past
  length-Pasts (q ∷ qs) [] past = absurd past
  length-Pasts (q ∷ qs) (d ∷ ds) past = ap suc (length-Pasts qs ds past.1)

  pub Pasts-lengths :
      (ps : List (List ℕ × S)) (cs : List (List Bytes)) → Pasts ps cs → All (λ c. length c ≡ k) cs
  Pasts-lengths [] [] past = tt
  Pasts-lengths [] (d ∷ ds) past = absurd past
  Pasts-lengths (q ∷ qs) [] past = absurd past
  Pasts-lengths (q ∷ qs) (d ∷ ds) past = (past.0.1, Pasts-lengths qs ds past.1)
