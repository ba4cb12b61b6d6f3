-- ===== src/Tests/Uuid.antt =====
-- The generator of ids on concrete inputs.
use order_orchestrator.Base.{ℕ, some, List, ◌≡◌, refl, arith}
use order_orchestrator.Platform.Memory.{memory_platform, memory_platform-IsPlatform}
use order_orchestrator.Base.{length, drop, All}
use order_orchestrator.Host.{Host}
use order_orchestrator.Platform.Laws.{IsByte}
use order_orchestrator.Uuid.{
  uuid_bytes, generate_uuid_v7, uuid_text, hex, next_timestamp_and_sequence, next_sequence,
  start_sequence, random_sequence, read_past,
}
use order_orchestrator.Uuid.Layout.{
  timestamp_of, version_of, sequence_of, variant_of, uuid_bytes_lem,
}
use order_orchestrator.Uuid.Order.{IsBefore, next_timestamp_and_sequence_increases}

-- The last id of a millisecond has been given.
abbrev spent_host : Host
spent_host = record {
  clock_reads = 7;
  random_reads = 3;
  last_timestamp_ms = some 1_700_000_000_007;
  sequence = 4095;
}

abbrev some_bytes : List ℕ
some_bytes = memory_platform.random_bytes 200 16

uuid_bytes_lem_example :
    let u = uuid_bytes 1_700_000_000_007 3000 some_bytes in
    (length u ≡ 16)
    × All IsByte u
    × (timestamp_of u ≡ 1_700_000_000_007)
    × (version_of u ≡ 7)
    × (sequence_of u ≡ 3000)
    × (variant_of u ≡ 2)
    × (drop 9 u ≡ drop 9 some_bytes)
uuid_bytes_lem_example =
    uuid_bytes_lem 1_700_000_000_007 3000 some_bytes (omega arith) (omega arith)
      (memory_platform-IsPlatform.length-random_bytes 200 16)
      (memory_platform-IsPlatform.random_bytes-IsByte 200 16)

next_timestamp_and_sequence_increases_example :
    let (x, h') = next_timestamp_and_sequence memory_platform spent_host in
    IsBefore (1_700_000_000_007, 4095) x × (h'.last_timestamp_ms ≡ some x.0) × (h'.sequence ≡ x.1)
next_timestamp_and_sequence_increases_example =
    next_timestamp_and_sequence_increases memory_platform-IsPlatform spent_host 1_700_000_000_007
      refl (omega arith) (omega arith)

generate_uuid_v7_test :
    (generate_uuid_v7 memory_platform (record spent_host { sequence = 0xabc })).0
    ≡ "018bcfe5-6807-7abd-8303-030303030303"
unfolding generate_uuid_v7 uuid_text hex next_timestamp_and_sequence next_sequence start_sequence
    random_sequence read_past
generate_uuid_v7_test = refl
