-- ===== src/Ohci/Devices/Tests.antt =====
-- Runs of `sohci_free_dev` of portable-ohci-core.c.
use ps2_side_dumper.Base.{ℕ, ◌+◌, ◌*◌, refl, true, arith, ◌==◌, if◌then◌else◌}
use ps2_side_dumper.Usb.{control}
use ps2_side_dumper.Ohci.Endpoints.{Eds, ed_oper, ed_unlink}
use ps2_side_dumper.Ohci.Submit.{Host}
use ps2_side_dumper.Ohci.Devices.{zero_ed, num_eds, eds_from, sohci_free_dev}
use ps2_side_dumper.Ohci.UrbTests.{host}
use ps2_side_dumper.Ohci.Devices.Deleted.{DeviceFreed, sohci_free_dev-Deleted}

-- The descriptors of a device lie 64 bytes apart.
abbrev eds_at : ℕ → ℕ → ℕ
eds_at dev i = dev + i * 64

-- The first is linked, the third waits unlinked.
abbrev eds : Eds
eds x =
    if x == 0x8000
    then record zero_ed { kind = control; state = ed_oper }
    else if x == 0x8080
    then record zero_ed { state = ed_unlink }
    else zero_ed

abbrev device_host : Host
device_host = record host {
  lists = record host.lists { eds = eds; ed_controlhead = 0x8000; ed_controltail = 0x8000 };
}

sohci_free_dev-Deleted_example :
    DeviceFreed
      (λ p. p + 1)
      (λ h. h)
      (eds_from (eds_at 0x8000) 0 num_eds)
      0x8000
      device_host
      (sohci_free_dev 1 (λ p. p + 1) eds_at (λ h. h) 0x8000 true device_host)
sohci_free_dev-Deleted_example =
    sohci_free_dev-Deleted 1 (λ p. p + 1) eds_at (λ h. h) 0x8000 device_host (omega arith) refl
      (omega arith)
