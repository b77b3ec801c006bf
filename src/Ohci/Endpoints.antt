-- ===== src/Ohci/Endpoints.antt =====
-- The endpoint lists of portable-ohci-core.c: `ep_link` and `ep_unlink`. The flushes of the caches
-- are left out.
mod Store
mod Tree
pub mod Segment
pub mod Chain
pub mod Removal
pub mod Spec
pub mod Linked
pub mod Unlinked
pub mod Refines
pub mod Run
pub mod Kept
pub mod Loads
pub mod Slots
pub mod Entries
pub mod Cleared
pub mod Relinked
pub mod Balance
mod Tests
unfoldable pub use Store.*
unfoldable pub use Tree.*
use ps2_side_dumper.Base.{ℕ, Bool, true, false, Option, none, some, ◌==◌, if◌then◌else◌}
use ps2_side_dumper.Usb.{PipeType, isochronous, interrupt, control, bulk, other_type}

-- The control and the bulk case of `ep_link` on a list with this tail: the descriptor is appended. The
-- head register changes only where the list is empty.
unfoldable pub append_ed : Eds → ℕ → ℕ → Eds
append_ed eds tail e =
    update (if tail == 0 then eds else update eds tail (set_next e)) e (set_prev tail)

abbrev pub append_head : ℕ → ℕ → ℕ → ℕ
append_head head tail e = if tail == 0 then e else head

-- What `ep_link` does for every kind of endpoint first.
abbrev pub start_link : ℕ → Lists → Lists
start_link e s = record s {
  eds = update s.eds e (λ ed. record ed { state = ed_oper; hw_next_ed = 0 });
}

-- `ep_link`; none only where `fuel` is not enough for the tree of the interrupt endpoints.
unfoldable pub ep_link : ℕ → ℕ → Lists → Option Lists
ep_link fuel e s = elim (s.eds e).kind [
  | control ↦
      let s' = start_link e s in
      some (record s' {
        eds = append_ed s'.eds s.ed_controltail e;
        ed_controlhead = append_head s.ed_controlhead s.ed_controltail e;
        ed_controltail = e;
      })
  | bulk ↦
      let s' = start_link e s in
      some (record s' {
        eds = append_ed s'.eds s.ed_bulktail e;
        ed_bulkhead = append_head s.ed_bulkhead s.ed_bulktail e;
        ed_bulktail = e;
      })
  | interrupt ↦ link_interrupt fuel e (start_link e s)
  | isochronous ↦ link_iso fuel e (start_link e s)
  | other_type ↦ some (start_link e s)
]

-- The control and the bulk case of `ep_unlink`, on a list with this tail.
unfoldable pub remove_ed : Eds → ℕ → ℕ → Eds
remove_ed eds tail e =
    let n = (eds e).hw_next_ed in
    let p = (eds e).ed_prev in
    let eds' = if p == 0 then eds else update eds p (set_next n) in
    if tail == e then eds' else update eds' n (set_prev p)

abbrev pub remove_head : Eds → ℕ → ℕ → ℕ
remove_head eds head e = if (eds e).ed_prev == 0 then (eds e).hw_next_ed else head

abbrev pub remove_tail : Eds → ℕ → ℕ → ℕ
remove_tail eds tail e = if tail == e then (eds e).ed_prev else tail

-- What `ep_unlink` does for every kind of endpoint first, and last.
abbrev pub start_unlink : ℕ → Lists → Lists
start_unlink e s = record s { eds = update s.eds e (λ ed. record ed { ed_skip = true }) }

abbrev pub end_unlink : ℕ → Lists → Lists
end_unlink e s = record s { eds = update s.eds e (λ ed. record ed { state = ed_unlink }) }

abbrev pub end_walk : ℕ → Option Lists → Option Lists
end_walk e none = none
end_walk e (some s) = some (end_unlink e s)

-- `ep_unlink`
unfoldable pub ep_unlink : ℕ → ℕ → Lists → Option Lists
ep_unlink fuel e s = elim (s.eds e).kind [
  | control ↦
      let s' = start_unlink e s in
      some (
        end_unlink e (record s' {
          eds = remove_ed s'.eds s.ed_controltail e;
          ed_controlhead = remove_head s'.eds s.ed_controlhead e;
          ed_controltail = remove_tail s'.eds s.ed_controltail e;
        }))
  | bulk ↦
      let s' = start_unlink e s in
      some (
        end_unlink e (record s' {
          eds = remove_ed s'.eds s.ed_bulktail e;
          ed_bulkhead = remove_head s'.eds s.ed_bulkhead e;
          ed_bulktail = remove_tail s'.eds s.ed_bulktail e;
        }))
  | interrupt ↦ end_walk e (unlink_interrupt fuel e (start_unlink e s))
  | isochronous ↦ end_walk e (unlink_iso fuel e (start_unlink e s))
  | other_type ↦ some (end_unlink e (start_unlink e s))
]
