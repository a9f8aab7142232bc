-- ===== src/Runs/Storage.antt =====
-- Runs of SecKeyShm.
use safe_transmission.Common.{
  false, ℕ, ◌≡◌, ◌⊎◌, inl, refl, List, [], ◌∷◌, ◌++◌, arith, some, length, true, ok, err, minus_one,
  All,
}
use safe_transmission.SecKeyShm.{
  NodeShmInfo, strcmp_equal, same_ids, all_zero, is_empty_node, write_same, write_empty, shm_write,
  shm_read,
}
use safe_transmission.SecKeyShm.Lookup.{IsNode, found, first_of, has_ids}
use safe_transmission.SecKeyShm.Write.{IsTaken, shm_read-shm_write, shm_write_full}
use safe_transmission.SecKeyShm.History.{no_call, stored, refused}
use safe_transmission.TcpSocket.Os.{done}
use safe_transmission.ShareMemory as Shm
use safe_transmission.ShareMemory.{ShareMemory, sec_key_shm, map_nodes}
use safe_transmission.ShareMemory.Cleared.{sec_key_shm_forgets}
use safe_transmission.Draft.KeyTable.{shm_putdata, shm_putdata-shm_write}
use safe_transmission.Codec.CString.Fields.{text_of}
use safe_transmission.Runs.Messages.{zeros, array}

abbrev pub key_node : ℕ → ℕ → List ℕ → NodeShmInfo
key_node id client key = record {
  status = 0;
  seckey_id = id;
  client_id = array 12 (client ∷ []);
  server_id = array 12 (0x32 ∷ []);
  seckey = array 128 key;
}

abbrev pub blank : NodeShmInfo
blank = record {
  status = 0;
  seckey_id = 0;
  client_id = zeros 12;
  server_id = zeros 12;
  seckey = zeros 128;
}

abbrev pub table : List NodeShmInfo
table = key_node 100 0x31 (0x41 ∷ []) ∷ blank ∷ []

abbrev fresh : NodeShmInfo
fresh = key_node 101 0x33 (0x42 ∷ [])

abbrev table_after : List NodeShmInfo
table_after = key_node 100 0x31 (0x41 ∷ []) ∷ fresh ∷ []

shm_write_run : shm_write (some table) 2 fresh ≡ ok table_after
unfolding shm_write write_same write_empty same_ids strcmp_equal is_empty_node all_zero
shm_write_run = refl

shm_read-shm_write_example :
    (length table_after ≡ 2)
    × All IsNode table_after
    × (shm_read (some table_after) 2 fresh.client_id fresh.server_id ≡ ok fresh)
shm_read-shm_write_example =
    shm_read-shm_write table table_after fresh
      (
        record { client_end = tt; server_end = tt },
        (record { client_end = tt; server_end = tt }, tt),
      )
      (record { client_end = tt; server_end = tt }) shm_write_run

shm_write_full_example :
    (All (IsTaken (key_node 102 0x34 [])) table_after
      × (shm_write (some table_after) 2 (key_node 102 0x34 []) ≡ err minus_one))
    ⊎ ((¬ All (IsTaken (key_node 102 0x34 [])) table_after)
        × (t' : List NodeShmInfo) × (shm_write (some table_after) 2 (key_node 102 0x34 []) ≡ ok t'))
shm_write_full_example =
    shm_write_full table_after (key_node 102 0x34 [])
      (
        record { client_end = tt; server_end = tt },
        (record { client_end = tt; server_end = tt }, tt),
      )
      (record { client_end = tt; server_end = tt })

-- A cleared segment, to which a key, a newer key of the same client and the key of another are written.
abbrev cleared : List NodeShmInfo
cleared = blank ∷ []

abbrev newer : NodeShmInfo
newer = key_node 102 0x33 (0x43 ∷ [])

abbrev of_another : NodeShmInfo
of_another = key_node 103 0x34 (0x44 ∷ [])

first_write : shm_write (some cleared) 1 fresh ≡ ok (fresh ∷ [])
unfolding shm_write write_same write_empty same_ids strcmp_equal is_empty_node all_zero
first_write = refl

second_write : shm_write (some (fresh ∷ [])) 1 newer ≡ ok (newer ∷ [])
unfolding shm_write write_same write_empty same_ids strcmp_equal is_empty_node all_zero
second_write = refl

third_write : shm_write (some (newer ∷ [])) 1 of_another ≡ err minus_one
unfolding shm_write write_same write_empty same_ids strcmp_equal is_empty_node all_zero
third_write = refl

-- A segment with a key in it, as bytes.
abbrev used_segment : List ℕ
used_segment = zeros 8 ++ (fresh.client_id ++ (fresh.server_id ++ fresh.seckey))

sec_key_shm_forgets_example :
    (shm : ShareMemory) × (sec_key_shm (done 5) (some used_segment) 1 ≡ ok (shm, 1))
    × (shm.segment ≡ some (Shm.zeros 160 ++ []))
    × (shm_read (some (newer ∷ [])) 1 (array 12 (0x33 ∷ [])) (array 12 (0x32 ∷ []))
        ≡ found (
            first_of
              (has_ids (text_of (array 12 (0x33 ∷ []))) (text_of (array 12 (0x32 ∷ []))))
              (newer ∷ fresh ∷ [])))
unfolding map_nodes text_of
sec_key_shm_forgets_example =
    sec_key_shm_forgets (done 5) used_segment 1 (newer ∷ []) (newer ∷ fresh ∷ [])
      (array 12 (0x33 ∷ [])) (array 12 (0x32 ∷ [])) (omega arith) (omega arith) (omega arith)
      (refused of_another
        (stored newer
          (stored fresh no_call (record { client_end = tt; server_end = tt }) first_write)
          (record { client_end = tt; server_end = tt }) second_write)
        third_write)
      tt tt (inl (λ e. cc))

shm_putdata-shm_write_example :
    (t' : List NodeShmInfo) × (shm_putdata (some table) (done tt) false 2 fresh ≡ ok (t', true))
    × ((shm_write (some table) 2 fresh ≡ ok t')
        ⊎ ((shm_write (some table) 2 fresh ≡ err minus_one) × (t' ≡ table)))
shm_putdata-shm_write_example =
    shm_putdata-shm_write (key_node 100 0x31 (0x41 ∷ [])) (blank ∷ []) false fresh (omega arith)
      (
        record { client_end = tt; server_end = tt },
        (record { client_end = tt; server_end = tt }, tt),
      )
      (record { client_end = tt; server_end = tt })
