-- ===== src/KvManager/Examples.antt =====
-- A paged pool of two rows.
use llm_steady_infer.Base.{◌≡◌, refl, true, false, Returns, arith}
use llm_steady_infer.KvManager.{Config, cuda, unset, valid_block_size, construct}
use llm_steady_infer.KvManager.Geometry.{Geometry, construct-Geometry}

abbrev config : Config
config = record {
  num_layers = 2;
  max_batch = 2;
  max_seq_len = 30;
  kv_dim = 8;
  kv_head_num = 1;
  device = cuda;
  block_size = 8;
  kv_quant = 0;
  group_size = 0;
  channel_group = 0;
  env_window = false;
  env_group_size = unset;
  env_channel_group = unset;
}

construct-Geometry_example : Returns (construct (λ _. true) config) (Geometry config)
unfolding valid_block_size
construct-Geometry_example =
    construct-Geometry config (λ _. true) refl refl refl refl (omega arith) (omega arith)
      (λ _. refl)

twelve_is_no_block_size : valid_block_size 12 ≡ false
unfolding valid_block_size
twelve_is_no_block_size = refl
