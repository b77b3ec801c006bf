-- ===== src/LocalMem/Portable.antt =====
-- `Portable_AllocateOhci` and `Portable_FreeOhci` of portable-ohci-ps2.c.
use ps2_side_dumper.Base.{ℕ, Option, none, some, List, [], ◌∷◌, ◌==◌, if◌then◌else◌}
use ps2_side_dumper.LocalMem.{Mem, GrowAnswer, success, enomem, grow_local_mem, cleanup_local_mem}

module _ (bus_to_virt : ℕ → ℕ) where
  -- `Portable_AllocateOhci`: the virtual address (0 for NULL) and the addresses given back.
  unfoldable pub portable_allocate_ohci : GrowAnswer → ℕ → Mem → Option (ℕ × List ℕ × Mem)
  portable_allocate_ohci g heap m = elim (grow_local_mem bus_to_virt g m) [
    | none ↦ none
    | some (enomem, m') ↦ some (0, [], m')
    | some (success, m') ↦
        if heap == 0
        then elim (cleanup_local_mem m') [
          | none ↦ none
          | some (ps, m'') ↦ some (0, ps, record m'' { free_list = [] })
        ]
        else some (bus_to_virt heap, [], m')
  ]

module _ (virt_to_bus : ℕ → ℕ) where
  -- `Portable_FreeOhci`: the addresses given to ps2sif_freeiopheap, and the emptied lists.
  unfoldable pub portable_free_ohci : ℕ → Mem → Option (List ℕ × Mem)
  portable_free_ohci ohci m = elim (cleanup_local_mem m) [
    | none ↦ none
    | some (ps, m') ↦ some (
      if ohci == 0 then ps else virt_to_bus ohci ∷ ps,
      record m' { free_list = []; alloc_list = [] },
    )
  ]
