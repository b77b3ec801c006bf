-- ===== src/Ohci/UrbTests.antt =====
-- Runs of the models of the queues and of the submission of urbs.
use ps2_side_dumper.Base.{
  ℕ, ◌+◌, ◌*◌, ◌≡◌, refl, inl, true, false, none, [], ◌∷◌, replicate, arith, length, ◌%◌, ◌==◌,
  if◌then◌else◌,
}
use ps2_side_dumper.Usb.{Pipe, control}
use ps2_side_dumper.LocalMem.{GrowAnswer, block}
use ps2_side_dumper.LocalMem.UrbCopy.{AllocAnswers}
use ps2_side_dumper.Ohci.Transfer.{Transfer, setup_td, td_submit_urb}
use ps2_side_dumper.Ohci.Endpoints.{Ed, Eds, ed_oper, ed_del}
use ps2_side_dumper.Ohci.Queue.{TdCell, TdQueues, Source, fill_urb}
use ps2_side_dumper.Ohci.Queue.Chained.{Filling, fill_urb-Filling}
use ps2_side_dumper.Ohci.Submit.{no_error, Host, UrbState, Kernel, sohci_submit_urb}
use ps2_side_dumper.Ohci.Submit.Balance.{Balanced, sohci_submit_urb-Balanced}
use ps2_side_dumper.Ohci.Submit.Returns.{Returns, sohci_submit_urb-Returns}

abbrev pub an_ed : Ed
an_ed = record {
  kind = control;
  state = ed_oper;
  ed_skip = false;
  hw_info = 0;
  hw_head = 256;
  halted = false;
  hw_tail = 512;
  hw_next_ed = 0;
  ed_prev = 0;
  int_period = 0;
  int_branch = 0;
  int_load = 0;
  int_interval = 0;
  last_iso = 0;
  rm_next = 0;
}

-- The endpoints whose addresses are even are in use, the others are to be deleted.
abbrev eds : Eds
eds x = if x % 2 == 0 then an_ed else record an_ed { state = ed_del }

abbrev pub a_td : TdCell
a_td = record {
  info = setup_td;
  code = 15;
  hw_cbp = 0;
  hw_be = 0;
  hw_psw = 0;
  hw_next_td = 512;
  index = 0;
  ed = 16;
  urb = 0;
  next_dl_td = 0;
}

-- The queue behind the endpoint 16 holds the descriptor 256, and then the dummy 512.
abbrev pub queues : TdQueues
queues = record {
  tds = λ x. a_td;
  eds = eds;
  priv = record {
    length_ = 2;
    td_cnt = 0;
    deleted = false;
    priv_ed = 16;
    td = 768 ∷ 1024 ∷ [];
    portable = record { transfer_buffer = 0; setup_packet = 0 };
  };
}

abbrev source : Source
source = record { urb_ptr = 7; ctrl = 4096; data_ptr = 0; start_frame = 0 }

-- A control transfer without data: the setup and the status stage
abbrev no_stage : Transfer
no_stage = record { kind = control; out = false; transfer_buffer_length = 0; packets = [] }

no_stage-count : length (td_submit_urb true no_stage) ≡ 2
unfolding td_submit_urb
no_stage-count = refl

fill_urb-Filling_example :
    Filling source 16 256
      (256 ∷ [])
      (512 ∷ 768 ∷ [])
      []
      1024
      (td_submit_urb true no_stage)
      (fill_urb true source no_stage queues)
fill_urb-Filling_example =
    fill_urb-Filling true source no_stage 16 256 (256 ∷ []) 512 queues no_stage-count (record {
      owner = refl;
      enough = refl;
      tail = refl;
      front = refl;
      links = (refl, refl);
      apart = (
        (omega arith, (omega arith, (omega arith, tt))),
        ((omega arith, (omega arith, tt)), ((omega arith, tt), (tt, tt))),
      );
    })

abbrev no_growth : GrowAnswer
no_growth = record { item_ok = false; heap = 0 }

abbrev atomic : AllocAnswers
atomic = record { irq = true; first = no_growth; second = no_growth; new_ok = true }

abbrev kernel : Kernel
kernel = record {
  dummy = atomic;
  priv_ok = true;
  td_answer = λ i. atomic;
  transfer_copy = atomic;
  setup_copy = atomic;
  toggled = true;
  hook_returns = true;
}

abbrev pub host : Host
host = record {
  lists = record {
    eds = eds;
    ed_controlhead = 16;
    ed_controltail = 16;
    ed_bulkhead = 0;
    ed_bulktail = 0;
    ed_isotail = 0;
    int_table = replicate 32 0;
    ohci_int_load = replicate 32 0;
  };
  tds = λ x. a_td;
  mem = record {
    local_mems = replicate 16 0;
    nlocal_mems = 0;
    insufficient_local_mem = 0;
    free_list = block 0x10000 0x10000 ∷ [];
    alloc_list = [];
  };
  memory = λ a. 0;
  disabled = false;
  rh_devnum = 1;
  frame_no = 5;
  dev = λ i. 0;
  uses = 3;
  ed_cnt = 1;
  ed_rm_list = λ i. 0;
  cle = true;
  ble = true;
  sof = false;
  usb_ed_lock = false;
}

abbrev pipe : Pipe
pipe = record {
  kind = control;
  device = 2;
  endpoint = 0;
  out = false;
  slow = false;
  max_packet = 8;
}

abbrev pub urb : UrbState
urb = record {
  urb_ptr = 7;
  has_bus = true;
  has_complete = true;
  next_urb = 0;
  pipe = pipe;
  packets = [];
  interval = 0;
  iso_asap = false;
  disable_spd = false;
  async_unlink = true;
  buffers = record { transfer_buffer = 0; setup_packet = 4096; transfer_buffer_length = 0 };
  hcpriv = none;
  status = no_error;
  actual_length = 0;
  start_frame = 0;
  results = [];
}

-- Where the endpoints of the device are
abbrev device_at : ℕ → ℕ
device_at i = 16 + 64 * i

sohci_submit_urb-Balanced_example :
    Balanced 3 none (sohci_submit_urb (λ b. b) 0 kernel 900 device_at urb host)
sohci_submit_urb-Balanced_example =
    sohci_submit_urb-Balanced (λ b. b) 0 kernel 900 device_at urb host refl

sohci_submit_urb-Returns_example :
    Returns (sohci_submit_urb (λ b. b) 0 kernel 900 device_at urb host)
sohci_submit_urb-Returns_example =
    sohci_submit_urb-Returns (λ b. b) 0 kernel 900 device_at urb host
      (refl, (λ i. refl), refl, refl) refl (inl refl) (λ old. refl) refl
