-- ===== src/Ohci/DoneTests.antt =====
-- Runs of the models of the done list and of the unlinking of urbs.
use ps2_side_dumper.Base.{refl, inl, true, false, [], ◌∷◌, arith, ◌%◌, ◌==◌, if◌then◌else◌}
use ps2_side_dumper.Ohci.Queue.{Tds}
use ps2_side_dumper.Base.{some}
use ps2_side_dumper.Ohci.Done.{DoneState, dl_reverse_done_list}
use ps2_side_dumper.Ohci.Done.Reversed.{Reverses, dl_reverse_done_list-Reverses}
use ps2_side_dumper.Ohci.Done.Del.{Driver, head_of, del_tds}
use ps2_side_dumper.Ohci.Done.Return.{dl_done_list}
use ps2_side_dumper.Ohci.Done.Finished.{Finished, dl_done_list-Finished}
use ps2_side_dumper.Ohci.Done.Removed.{Emptied, del_tds-Emptied}
use ps2_side_dumper.Ohci.Unlink.{sohci_unlink_urb}
use ps2_side_dumper.Ohci.Unlink.Requested.{UnderWay, Queued, Removes, sohci_unlink_urb-Removes}
use ps2_side_dumper.Ohci.Submit.{pending}
use ps2_side_dumper.Ohci.Interrupt.{Interrupts, hc_interrupt}
use ps2_side_dumper.Ohci.Interrupt.Finishes.{DoneFor, AllReturned, hc_interrupt-AllReturned}
use ps2_side_dumper.Ohci.UrbTests.{an_ed, a_td, queues, host, urb}

-- The controller has finished the descriptor 256 and then 512, of which the first with an error.
abbrev done_tds : Tds
done_tds x =
    if x == 512
    then record a_td { code = 0; hw_next_td = 256 }
    else record a_td { code = 4; hw_next_td = 0 }

abbrev finished : DoneState
finished = record {
  done_tds = done_tds;
  done_eds = λ x. record an_ed { halted = true };
  privs = λ u. some queues.priv;
  done_head = 512;
}

dl_reverse_done_list-Reverses_example :
    Reverses done_tds (256 ∷ 512 ∷ []) (dl_reverse_done_list 3 finished)
dl_reverse_done_list-Reverses_example =
    dl_reverse_done_list-Reverses 3 (512 ∷ 256 ∷ []) finished (omega arith) (refl, (refl, refl))
      (omega arith, (omega arith, tt)) ((omega arith, tt), (tt, tt))

-- The urb 0 is unlinked, with the descriptors 256 and 768 before the dummy 512.
abbrev unlinked_tds : Tds
unlinked_tds x = if x == 256 then record a_td { hw_next_td = 768 } else a_td

abbrev driver : Driver
driver = record {
  host = record host { tds = unlinked_tds };
  urbs = λ u. record urb { hcpriv = some (record queues.priv { deleted = true }) };
  hcca_done_head = 0;
  wakes = 0;
  halts = [];
  control_reset = false;
  bulk_reset = false;
}

del_tds-Emptied_example :
    Emptied 16 0 512 2 driver (del_tds (λ u d. d) 3 16 256 (head_of 16) 512 driver)
del_tds-Emptied_example =
    del_tds-Emptied (λ u d. d) 3 16 0 256 512 (256 ∷ 768 ∷ []) driver (λ u d. refl) (omega arith)
      refl (refl, (refl, refl)) (omega arith, (omega arith, tt)) (refl, (refl, tt)) (refl, refl)
      refl

-- The urb 0 has the descriptors 512 and 256, which are done.
abbrev returning : Driver
returning = record driver {
  host = record host { tds = λ x. record a_td { next_dl_td = if x == 512 then 256 else 0 } };
  urbs = λ u. record urb { hcpriv = some queues.priv };
}

dl_done_list-Finished_example :
    Finished 16 0
      (512 ∷ 256 ∷ [])
      returning
      (dl_done_list (λ u d. d) (λ u d. true) 3 true 512 returning)
dl_done_list-Finished_example =
    dl_done_list-Finished (λ u d. d) (λ u d. true) 3 true 16 0 512 (512 ∷ 256 ∷ []) returning
      (λ u d. refl) (λ u d. refl) (omega arith) (refl, (refl, refl))
      (omega arith, (omega arith, tt)) (refl, (refl, tt)) (refl, (refl, tt)) (refl, refl)
      (refl, inl refl) (refl, refl, inl refl)

-- The urb 7 is under way with the descriptors 256 and 768 on the endpoint 16.
abbrev under_way : Driver
under_way = record driver {
  host = record host {
    tds = λ x. record a_td { urb = 7; hw_next_td = if x == 256 then 768 else 512 };
  };
  urbs = λ u. record urb { hcpriv = some queues.priv; status = pending };
}

under_way-UnderWay : UnderWay 7 queues.priv (256 ∷ 768 ∷ []) under_way
under_way-UnderWay = record {
  address = omega arith;
  endpoint = omega arith;
  on_bus = refl;
  not_hub = omega arith;
  under_way = refl;
  async = refl;
  part = refl;
  enabled = refl;
  calm = refl;
  count = refl;
}

under_way-Queued : Queued 7 queues.priv 256 512 (256 ∷ 768 ∷ []) under_way
under_way-Queued = record {
  head = refl;
  tail = refl;
  links = (refl, (refl, refl));
  fresh = (omega arith, (omega arith, tt));
  own = (refl, (refl, tt));
}

sohci_unlink_urb-Removes_example :
    Removes
      (λ u d. d)
      3
      (host.frame_no % 2)
      16
      7
      512
      (256 ∷ 768 ∷ [])
      (sohci_unlink_urb (λ u d. d) 3 false (λ d. d) (λ i. i) 7 under_way)
sohci_unlink_urb-Removes_example =
    sohci_unlink_urb-Removes (λ u d. d) 3 false (λ d. d) (λ i. i) 7 256 512 256 (768 ∷ [])
      queues.priv under_way under_way-UnderWay under_way-Queued (λ u d. refl) (omega arith) refl

-- The controller hands over the descriptors 512 and 256 of the urb 0.
abbrev handed_over : Driver
handed_over = record driver {
  host = record host {
    tds = λ x. record a_td { code = 0; hw_next_td = if x == 512 then 256 else 0 };
  };
  urbs = λ u. record urb { hcpriv = some queues.priv };
  hcca_done_head = 512;
}

abbrev no_interrupts : Interrupts
no_interrupts = record { writeback = false; start_of_frame = false; unrecoverable = false }

handed_over-DoneFor : DoneFor 16 0 (512 ∷ 256 ∷ []) handed_over
handed_over-DoneFor = record {
  some_left = omega arith;
  chain = (refl, (refl, refl));
  not_null = (omega arith, (omega arith, tt));
  distinct = ((omega arith, tt), (tt, tt));
  no_errors = (refl, (refl, tt));
  of_urb = (refl, (refl, tt));
  at_ed = (refl, (refl, tt));
  part = (refl, refl);
  returnable = (refl, inl refl);
  in_use = (refl, refl, inl refl);
}

hc_interrupt-AllReturned_example :
    AllReturned 16 0 handed_over
      (hc_interrupt (λ u d. d) (λ u d. true) 3 true no_interrupts handed_over)
hc_interrupt-AllReturned_example =
    hc_interrupt-AllReturned (λ u d. d) (λ u d. true) 3 true no_interrupts 16 0 (512 ∷ 256 ∷ [])
      handed_over (λ u d. refl) (λ u d. refl) (omega arith) refl (omega arith) refl
      handed_over-DoneFor
