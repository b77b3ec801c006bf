-- ===== src/Dump/Setup.antt =====
-- `DumpSPBytes` and `DumpSPSettings` of side_dumper_core.c.
use ps2_side_dumper.Base.{ℕ, ◌/◌, List, ◌++◌, bit_and, codes, ◌==◌, if◌then◌else◌}
use ps2_side_dumper.Text.{dec, hex_byte, hex_word}
use ps2_side_dumper.Mini.{Mini, SetupPacket, setup_of, is_control, get_descriptor}
use ps2_side_dumper.Dump.Output.{Dump, print, complain, wrong_pipe_type}

abbrev sp_bytes : List ℕ → SetupPacket → List ℕ
sp_bytes header sp =
    header
    ++ (codes "  sp = [ "
        ++ (hex_byte sp.requesttype
            ++ (codes " "
                ++ (hex_byte sp.request
                    ++ (codes " "
                        ++ (hex_word sp.value
                            ++ (codes " "
                                ++ (hex_word sp.index
                                    ++ (codes " " ++ (hex_word sp.length ++ codes " ]\n"))))))))))

unfoldable pub dump_sp_bytes : List ℕ → Mini → Dump
dump_sp_bytes header m =
    if is_control m.pipe.kind
    then print (sp_bytes header (setup_of m.setup_packet))
    else complain wrong_pipe_type

-- The request with its numbers in brackets: "<name>(@%u), ", "<name>(%u@%u), ", "<name>(%u), ".
abbrev at_index : List ℕ → ℕ → List ℕ
at_index name index = name ++ (codes "(@" ++ (dec index ++ codes "), "))

abbrev value_at_index : List ℕ → ℕ → ℕ → List ℕ
value_at_index name value index =
    name ++ (codes "(" ++ (dec value ++ (codes "@" ++ (dec index ++ codes "), "))))

abbrev of_value : List ℕ → ℕ → List ℕ
of_value name value = name ++ (codes "(" ++ (dec value ++ codes "), "))

-- The switch on `sp.value >> 8`.
unfoldable pub descriptor_type_str : ℕ → List ℕ
descriptor_type_str t =
    if t == 1
    then codes "(USB_DT_DEVICE), "
    else if t == 2
    then codes "(USB_DT_CONFIG), "
    else if t == 3
    then codes "(USB_DT_STRING), "
    else if t == 4
    then codes "(USB_DT_INTERFACE), "
    else if t == 5
    then codes "(USB_DT_ENDPOINT), "
    else codes "(USB_DT_?), "

-- The switch on `sp.request`, by the request codes of the USB specification.
unfoldable pub standard_request_str : SetupPacket → List ℕ
standard_request_str sp =
    if sp.request == 0
    then at_index (codes "USB_REQ_GET_STATUS") sp.index
    else if sp.request == 1
    then value_at_index (codes "USB_REQ_CLEAR_FEATURE") sp.value sp.index
    else if sp.request == 3
    then value_at_index (codes "USB_REQ_SET_FEATURE") sp.value sp.index
    else if sp.request == 5
    then at_index (codes "USB_REQ_SET_ADDRESS") sp.value
    else if sp.request == get_descriptor
    then codes "USB_REQ_GET_DESCRIPTOR" ++ descriptor_type_str (sp.value / 256)
    else if sp.request == 7
    then codes "USB_REQ_SET_DESCRIPTOR" ++ descriptor_type_str (sp.value / 256)
    else if sp.request == 8
    then codes "USB_REQ_GET_CONFIGURATION, "
    else if sp.request == 9
    then of_value (codes "USB_REQ_SET_CONFIGURATION") sp.value
    else if sp.request == 10
    then at_index (codes "USB_REQ_GET_INTERFACE") sp.index
    else if sp.request == 11
    then value_at_index (codes "USB_REQ_SET_INTERFACE") sp.value sp.index
    else if sp.request == 12
    then at_index (codes "USB_REQ_SYNCH_FRAME") sp.index
    else codes "USB_REQ_?, "

-- The switch on `sp.requesttype & 0x60`.
unfoldable pub request_str : SetupPacket → List ℕ
request_str sp =
    let type = bit_and sp.requesttype 0x60 in
    if type == 0
    then standard_request_str sp
    else if type == 0x20
    then codes "USB_TYPE_CLASS, "
    else if type == 0x40
    then codes "USB_TYPE_VENDOR, "
    else codes "USB_TYPE_?, "

-- The switch on `sp.requesttype & USB_RECIP_MASK`, whose mask is 0x1f.
unfoldable pub recipient_str : SetupPacket → List ℕ
recipient_str sp =
    let recip = bit_and sp.requesttype 0x1f in
    if recip == 0
    then codes "USB_RECIP_DEVICE\n"
    else if recip == 1
    then codes "USB_RECIP_INTERFACE\n"
    else if recip == 2
    then codes "USB_RECIP_ENDPOINT\n"
    else if recip == 3
    then codes "USB_RECIP_OTHER\n"
    else codes "USB_RECIP_?\n"

-- USB_DIR_IN is bit 7.
abbrev direction_str : SetupPacket → List ℕ
direction_str sp = if bit_and sp.requesttype 0x80 == 0 then codes "h->d" else codes "h<-d"

unfoldable pub dump_sp_settings : List ℕ → Mini → Dump
dump_sp_settings header m =
    let sp = setup_of m.setup_packet in
    if is_control m.pipe.kind
    then print (
        header
        ++ (codes "    "
            ++ (direction_str sp ++ (codes ", " ++ (request_str sp ++ recipient_str sp)))))
    else complain wrong_pipe_type
