-- ===== src/Syncd/Generator.antt =====
-- lib/baileys_ex/syncd/codec.ex: the generator of the hash, which collects what the mutations add and
-- subtract. `encode64` is `Base.encode64`.
use mathlib.Core.List.{reverse}
use baileys_ex.Base.{List, [], ◌∷◌, Option, none, some}
use baileys_ex.Base.Text.{Text, Bytes}
use baileys_ex.Base.Assoc.{Assoc, lookup, put, delete}
use baileys_ex.Base.Result.{Result, map_ok}
use baileys_ex.LtHash.{subtract_then_add}
use baileys_ex.Syncd.{Operation, set, remove}

pub record Generator : Type 0 where
  pub index_value_map : Assoc Bytes
  pub add_buffs : List Bytes
  pub sub_buffs : List Bytes
  pub hash : Bytes

pub record Mixed : Type 0 where
  pub index_mac : Bytes
  pub value_mac : Bytes
  pub operation : Operation

pub record Finished : Type 0 where
  pub hash : Bytes
  pub index_value_map : Assoc Bytes

unfoldable pub init_lt_hash_generator : Bytes → Assoc Bytes → Generator
init_lt_hash_generator hash index_value_map = record {
  index_value_map = index_value_map;
  add_buffs = [];
  sub_buffs = [];
  hash = hash;
}

-- The first half: what the operation itself does, given the previous entry of the index.
abbrev pub apply_operation : Generator → Text → Bytes → Operation → Option Bytes → Generator
apply_operation gen index value_mac remove none = gen
apply_operation gen index value_mac remove (some prev) = record gen {
  index_value_map = delete index gen.index_value_map;
}
apply_operation gen index value_mac set prev = record gen {
  add_buffs = value_mac ∷ gen.add_buffs;
  index_value_map = put index value_mac gen.index_value_map;
}

-- The second half.
abbrev pub subtract_previous : Generator → Option Bytes → Generator
subtract_previous gen none = gen
subtract_previous gen (some prev) = record gen { sub_buffs = prev ∷ gen.sub_buffs }

unfoldable pub mix_at : Generator → Text → Bytes → Operation → Generator
mix_at gen index value_mac operation =
    let prev_op = lookup index gen.index_value_map in
    subtract_previous (apply_operation gen index value_mac operation prev_op) prev_op

unfoldable pub mix_mutation : (Bytes → Text) → Generator → Mixed → Generator
unfolding mix_at
mix_mutation encode64 gen m = mix_at gen (encode64 m.index_mac) m.value_mac m.operation

unfoldable pub finish_lt_hash_generator : (Bytes → Bytes) → Generator → Result Finished
finish_lt_hash_generator sha256 gen =
    map_ok (λ result. record { hash = result; index_value_map = gen.index_value_map })
      (subtract_then_add sha256 gen.hash (reverse gen.sub_buffs) (reverse gen.add_buffs))
