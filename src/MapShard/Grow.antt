-- ===== src/MapShard/Grow.antt =====
-- One more shard, or more rows in the current shard: what is there stays there.
use schema_js.Prelude.{
  ℕ, ◌+◌, ◌*◌, ◌^◌, ◌<◌, ◌≤◌, ◌≡◌, ◌≢◌, refl, sym, ap, subst, ◌∙◌, List, [], ◌∷◌, ◌++◌, some, All,
  length, arith, ◌⊎◌,
}
use schema_js.Prelude.Results.{ok, ◌>>=◌, in_usize_lem}
use schema_js.Prelude.Bytes.{Bytes, IsU64}
use schema_js.Shard.Trait.{Shard}
use schema_js.Shard.Laws.{ShardView, ShardLaws}
use schema_js.Uuid.{UuidApi}
use schema_js.MapShard.Names.{extract_shard_signature, generate_shard_name}
use schema_js.MapShard.Names.RoundTrip.{extract_shard_signature-generate_shard_name}
use schema_js.MapShard.Ops.{MapShard, World, global_position, create_new_shard, insert_into_current}
use schema_js.Shard.Errors.{ShardErrors}
use schema_js.MapShard.State.{IsGood, Contains, Pasts-append, length-Pasts, index_map_insert_new}

All-snoc {ℓ κ} :
    {A : Type ℓ} (P : A → Type κ) (xs : List A) (x : A) → All P xs → P x → All P (xs ++ (x ∷ []))
All-snoc P [] x h p = (p, tt)
All-snoc P (y ∷ ys) x h p = (h.0, All-snoc P ys x h.1 p)

pub le_or_lt : (a b : ℕ) → (a ≤ b) ⊎ (b < a)
le_or_lt a b = omega arith

pub global_position_lem :
    (k past local_index : ℕ)
    → IsU64 (past * k + local_index)
    → global_position {E = ShardErrors} (some k) past local_index ≡ ok (past * k + local_index)
unfolding global_position
global_position_lem k past local_index h =
    rw
      (
        in_usize_lem {E = ShardErrors} (past * k) (omega arith),
        ◌>>=◌,
        in_usize_lem {E = ShardErrors} (past * k + local_index) h,
      )
      refl

module _ {S Opts Uuid : Type 0} ⦃u : UuidApi Uuid⦄ (ops : Shard S Opts Uuid) (v : ShardView S Opts)
    (laws : ShardLaws ops v) (w : World Uuid) (limit : ℕ) (good : IsGood w limit) (k : ℕ)
    (some_room : 0 < k) where
  abbrev Holding : MapShard S Opts → List (List Bytes) → List Bytes → ℕ → Type 0
  Holding = Contains ops v w limit k

  -- A new shard is opened when the current one is full.
  pub create_new_shard-Contains :
      (m : MapShard S Opts) (chunks : List (List Bytes)) (current : List Bytes) (number : ℕ)
      → Holding m chunks current number
      → length current ≡ k
      → number + 1 ≤ limit
      → v.Small k []
      → (m' : MapShard S Opts) × (create_new_shard ops w m ≡ ok m')
        × Holding m' (chunks ++ (current ∷ [])) [] (number + 1)
  unfolding create_new_shard
  create_new_shard-Contains m chunks current number c full fits small = (m', made, contains)
    where
      id : Uuid
      id = w.drawn (number + 1)

      path : List ℕ
      path = generate_shard_name m.shard_prefix id (number + 1)

      inside : number + 1 < 2 ^ 64
      inside = omega (arith, good.limit_fits)

      opened :
          (s : S) × (ops.open_shard w.platform path (w.disk path) m.config (some id) id ≡ ok s)
          × v.Holds k s []
          × (ops.get_path s ≡ path)
      opened =
          let base =
            laws.open_shard_law path m.config (some id) id c.suits
              (subst (λ (n : ℕ). v.Small n []) (sym c.config) small) (rw c.config some_room) in
          (
            base.0,
            rw (good.on_posix, good.empty_disk m.shard_prefix (number + 1)) base.1,
            subst (λ (n : ℕ). v.Holds n base.0 []) c.config base.2,
            base.3,
          )

      m' : MapShard S Opts
      m' = record m {
        current_master_shard = opened.0;
        past_master_shards = m.past_master_shards ++ ((c.key, m.current_master_shard) ∷ []);
      }

      made : create_new_shard ops w m ≡ ok m'
      made = rw (
        c.named,
        ◌>>=◌,
        opened.1,
        index_map_insert_new c.key m.current_master_shard m.past_master_shards c.key_new,
      )

      contains : Holding m' (chunks ++ (current ∷ [])) [] (number + 1)
      contains = record {
        past =
            Pasts-append ops v w limit k m.past_master_shards chunks (c.key, m.current_master_shard)
              current c.past c.holds full;
        holds = opened.2;
        config = c.config;
        suits = c.suits;
        stem = c.stem;
        prefix = c.prefix;
        plain = c.plain;
        key = u.to_string id;
        path = path;
        named =
            ap extract_shard_signature opened.3
            ∙ subst
                (λ p.
                  extract_shard_signature (generate_shard_name p id (number + 1))
                  ≡ some (number + 1, u.to_string id, generate_shard_name p id (number + 1)))
                (sym c.prefix)
                (extract_shard_signature-generate_shard_name c.stem id (number + 1) c.plain inside);
        key_new =
            All-snoc (λ p. p.0 ≢ u.to_string id) m.past_master_shards
              (c.key, m.current_master_shard) (c.later_new (number + 1) (omega arith) fits).1
              (λ e. (c.later_new (number + 1) (omega arith) fits).0 (sym e));
        later_new = λ j h l. (
          good.distinct (number + 1) j h l,
          All-snoc (λ p. p.0 ≢ u.to_string (w.drawn j)) m.past_master_shards
              (c.key, m.current_master_shard) (c.later_new j (omega arith) l).1
              (λ e. (c.later_new j (omega arith) l).0 (sym e)),
        );
      }

  -- What goes into the current shard stays in order, behind what was there.
  pub insert_into_current-Contains :
      (m : MapShard S Opts) (chunks : List (List Bytes)) (current new : List Bytes) (number : ℕ)
      → Holding m chunks current number
      → length current + length new ≤ k
      → v.Small k (current ++ new)
      → IsU64 (length chunks * k + v.returned (length (current ++ new)))
      → (m' : MapShard S Opts) × (insert_into_current ops w m new
          ≡ ok (m', length chunks * k + v.returned (length (current ++ new))))
        × Holding m' chunks (current ++ new) number
  unfolding insert_into_current
  insert_into_current-Contains m chunks current new number c fits small word =
      let law = laws.insert_item_law k m.current_master_shard current new c.holds fits small in
      let bp = laws.breaking_point_law k _ (current ++ new) law.0 in
      (
        record m { current_master_shard = (ops.insert_item m.current_master_shard new).0 },
        rw (
          law.1,
          ◌>>=◌,
          bp,
          length-Pasts ops v w limit k m.past_master_shards chunks c.past,
          global_position_lem k (length chunks) (v.returned (length (current ++ new))) word,
        ),
        record {
          stem = c.stem;
          plain = c.plain;
          key = c.key;
          path = c.path;
          past = c.past;
          holds = law.0;
          config = c.config;
          suits = c.suits;
          prefix = c.prefix;
          named =
              ap extract_shard_signature (laws.get_path_law m.current_master_shard new) ∙ c.named;
          key_new = c.key_new;
          later_new = c.later_new;
        },
      )
