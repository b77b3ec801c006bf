-- ===== src/Dump/Descriptors.antt =====
-- `DumpDD`, `DumpCD`, `DumpSD`, `DumpID` and `DumpED` of side_dumper_core.c. The offsets of the
-- fields and the sizes 18, 9, 9, 7 and 9 (USB_DT_DEVICE_SIZE and so on) are those of the
-- descriptors in the USB specification.
use ps2_side_dumper.Base.{
  ℕ, zero, suc, ◌+◌, ◌-◌, ◌/◌, Bool, true, false, List, [], ◌∷◌, ◌++◌, codes, ltb, ◌==◌, ◌||◌,
  if◌then◌else◌,
}
use ps2_side_dumper.Base.Run.{Run, ok, out_of_fuel, ◌>>=◌}
use ps2_side_dumper.Text.{hex, hex_byte}
use ps2_side_dumper.Usb.{Bytes}
use ps2_side_dumper.Mini.{word_at, min_u}
use ps2_side_dumper.Dump.Output.{
  Dump, nothing, print, complain, wrong_descriptor_type, ◌⊕◌, line_byte, line_word, line_byte_dec,
  line_word_dec, short_transfer, unknown_type,
}

-- The ruled lines around each descriptor.
abbrev title : List ℕ → List ℕ → List ℕ
title header name = header ++ name

abbrev footer : List ℕ → List ℕ
footer header = header ++ codes "    --------------------------\n"

-- The switch on `bDeviceClass`, by the class codes of the USB specification.
unfoldable pub device_class_str : ℕ → List ℕ
device_class_str c =
    if c == 0
    then codes "no class\n"
    else if c == 1
    then codes "USB_CLASS_AUDIO\n"
    else if c == 2
    then codes "USB_CLASS_COMM\n"
    else if c == 3
    then codes "USB_CLASS_HID\n"
    else if c == 7
    then codes "USB_CLASS_PRINTER\n"
    else if c == 8
    then codes "USB_CLASS_MASS_STORAGE\n"
    else if c == 9
    then codes "USB_CLASS_HUB\n"
    else if c == 0xff
    then codes "USB_CLASS_VENDOR_SPEC\n"
    else codes "???\n"

-- The fields of a device descriptor, one to a line.
unfoldable pub device_fields : List ℕ → Bytes → List ℕ
device_fields header d =
    line_byte_dec header (codes "    bLength            = ") (d 0)
    ++ (line_byte header (codes "    bDescriptorType    = ") (d 1)
        ++ (line_word header (codes "    bcdUSB             = ") (word_at d 2)
            ++ ((header
                  ++ (codes "    bDeviceClass       = "
                      ++ (hex_byte (d 4) ++ (codes "h " ++ device_class_str (d 4)))))
                ++ (line_byte header (codes "    bDeviceSubClass    = ") (d 5)
                    ++ (line_byte header (codes "    bDeviceProtocol    = ") (d 6)
                        ++ (line_byte_dec header (codes "    bMaxPacketSize0    = ") (d 7)
                            ++ (line_word header (codes "    idVendor           = ") (word_at d 8)
                                ++ (line_word header (codes "    idProduct          = ")
                                      (word_at d 10)
                                    ++ (line_word header (codes "    bcdDevice          = ")
                                          (word_at d 12)
                                        ++ (line_byte_dec header (codes "    iManufacturer      = ")
                                              (d 14)
                                            ++ (line_byte_dec header
                                                  (codes "    iProduct           = ") (d 15)
                                                ++ (line_byte_dec header
                                                      (codes "    iSerialNumber      = ") (d 16)
                                                    ++ (line_byte_dec header
                                                        (codes "    bNumConfigurations = ")
                                                        (d 17))))))))))))))

unfoldable pub dump_dd : List ℕ → Bytes → ℕ → List ℕ
unfolding device_fields
dump_dd header d len =
    title header (codes "    -- device descriptor -----\n")
    ++ ((if ltb len 18 then short_transfer header len (d 0) else device_fields header d)
        ++ footer header)

-- The fields of a configuration descriptor.
unfoldable pub config_fields : List ℕ → Bytes → List ℕ
config_fields header d =
    line_byte header (codes "    bLength             = ") (d 0)
    ++ (line_byte header (codes "    bDescriptorType     = ") (d 1)
        ++ (line_word_dec header (codes "    wTotalLength        = ") (word_at d 2)
            ++ (line_byte header (codes "    bNumInterfaces      = ") (d 4)
                ++ (line_byte header (codes "    bConfigurationValue = ") (d 5)
                    ++ (line_byte header (codes "    iConfiguration      = ") (d 6)
                        ++ (line_byte header (codes "    bmAttributes        = ") (d 7)
                            ++ (line_byte_dec header (codes "    MaxPower            = ")
                                (d 8))))))))

-- The fields of an interface descriptor.
unfoldable pub interface_fields : List ℕ → Bytes → List ℕ
interface_fields header d =
    line_byte header (codes "    bLength            = ") (d 0)
    ++ (line_byte header (codes "    bDescriptorType    = ") (d 1)
        ++ (line_byte_dec header (codes "    bInterfaceNumber   = ") (d 2)
            ++ (line_byte header (codes "    bAlternateSetting  = ") (d 3)
                ++ (line_byte_dec header (codes "    bNumEndpoints      = ") (d 4)
                    ++ (line_byte header (codes "    bInterfaceClass    = ") (d 5)
                        ++ (line_byte header (codes "    bInterfaceSubClass = ") (d 6)
                            ++ (line_byte header (codes "    bInterfaceProtocol = ") (d 7)
                                ++ (line_byte_dec header (codes "    iInterface         = ")
                                    (d 8)))))))))

unfoldable pub dump_id : List ℕ → Bytes → ℕ → List ℕ
unfolding interface_fields
dump_id header d len =
    title header (codes "    -- interface descriptor --\n")
    ++ ((if ltb len 9 then short_transfer header len (d 0) else interface_fields header d)
        ++ footer header)

-- The fields of an endpoint descriptor; two more if it has the length of an audio endpoint's.
unfoldable pub endpoint_fields : List ℕ → Bytes → List ℕ
endpoint_fields header d =
    line_byte header (codes "    bLength          = ") (d 0)
    ++ (line_byte header (codes "    bDescriptorType  = ") (d 1)
        ++ (line_byte header (codes "    bEndpointAddress = ") (d 2)
            ++ (line_byte header (codes "    bmAttributes     = ") (d 3)
                ++ (line_word_dec header (codes "    wMaxPacketSize   = ") (word_at d 4)
                    ++ (line_byte_dec header (codes "    bInterval        = ") (d 6)
                        ++ ((if d 0 == 9
                            then line_word header (codes "    bRefresh         = ") (d 7)
                              ++ (line_byte header (codes "    bSynchAddress    = ") (d 8))
                            else [])))))))

unfoldable pub dump_ed : List ℕ → Bytes → ℕ → List ℕ
unfolding endpoint_fields
dump_ed header d len =
    title header (codes "    -- endpoint descriptor ---\n")
    ++ ((if ltb len 7 then short_transfer header len (d 0) else endpoint_fields header d)
        ++ footer header)

-- How many characters lie before `pEnd`. For fewer than two bytes the unsigned difference wraps,
-- and `pEnd` comes to lie before the first character.
unfoldable pub string_chars : ℕ → ℕ
string_chars n = if ltb n 2 then 0 else (n - 2) / 2

module _ (isprint : ℕ → Bool) where
  -- The loop over the characters, of which the low bytes are taken.
  unfoldable pub string_loop : Bytes → ℕ → ℕ → List ℕ
  string_loop d zero at = []
  string_loop d (suc left) at =
      (if isprint (d at) then d at else b'.') ∷ string_loop d left (at + 2)

  abbrev string_data : List ℕ → Bytes → ℕ → ℕ → List ℕ
  string_data header d len index =
      if index == 0
      then header ++ codes "    wData           = [tbd]\n"
      else header
        ++ (codes "    wData[]         = '"
            ++ (string_loop d (string_chars (min_u (d 0) len)) 2 ++ codes "'\n"))

  unfoldable pub dump_sd : List ℕ → Bytes → ℕ → ℕ → List ℕ
  unfolding string_chars min_u
  dump_sd header d len index =
      title header (codes "    -- string descriptor -----\n")
      ++ ((if ltb len 2 || ltb len (d 0)
            then short_transfer header len (d 0)
            else line_byte_dec header (codes "    bLength         = ") (d 0)
              ++ (line_byte header (codes "    bDescriptorType = ") (d 1)
                  ++ string_data header d len index))
          ++ footer header)

-- The memory behind the pointer `d + off`.
abbrev pub offset : Bytes → ℕ → Bytes
offset d off = λ i. d (off + i)

-- One descriptor behind the configuration's own: the body of the loop of `DumpCD`, at `off`. The
-- text for an unknown type takes type and length from the configuration descriptor.
unfoldable pub sub_descriptor : List ℕ → Bytes → ℕ → ℕ → Dump
unfolding dump_id dump_ed
sub_descriptor header d end off =
    let type = d (off + 1) in
    if (type == 1) || ((type == 2) || (type == 3))
    then complain wrong_descriptor_type
    else if type == 4
    then print (dump_id header (offset d off) (end - off))
    else if type == 5
    then print (dump_ed header (offset d off) (end - off))
    else print (unknown_type header (hex (d 1)) (d 0))

-- The loop of `DumpCD` from `off` to `end`.
unfoldable pub config_loop : ℕ → List ℕ → Bytes → ℕ → ℕ → Run Dump
config_loop zero header d end off = out_of_fuel
config_loop (suc fuel) header d end off = elim (ltb off end) [
  | false ↦ ok nothing
  | true ↦ config_loop fuel header d end (off + d off) >>= λ rest.
      ok (sub_descriptor header d end off ⊕ rest)
]

abbrev pub config_head : List ℕ → Bytes → ℕ → List ℕ
config_head header d len =
    title header (codes "    -- config descriptor -----\n")
    ++ ((if ltb len 9 then short_transfer header len (d 0) else config_fields header d)
        ++ footer header)

-- Where the loop of `DumpCD` ends.
abbrev pub config_end : Bytes → ℕ → ℕ
config_end d len = min_u len (word_at d 2)

-- `DumpCD`; each round of its loop takes one of `fuel`.
unfoldable pub dump_cd : ℕ → List ℕ → Bytes → ℕ → Run Dump
unfolding config_fields min_u
dump_cd fuel header d len =
    if ltb 9 len
    then (config_loop fuel header d (config_end d len) (d 0) >>= λ rest.
        ok (print (config_head header d len) ⊕ rest))
    else ok (print (config_head header d len))
