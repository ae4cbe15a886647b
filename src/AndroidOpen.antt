-- ===== src/AndroidOpen.antt =====
-- The patch for Android in rtlsdr/src/main/cpp/librtlsdr/src/librtlsdr.c, rtlsdr_open2 with
-- get_string_descriptor and rtlsdr_check_dongle_model: a dongle opened from a file descriptor. libusb and
-- the rest of librtlsdr are the parameter `Usb`, their answers; the calls with an effect are listed
-- (`Action`). A fault (`none`) is a read outside of an array, or a call on a handle that is NULL. Built
-- without DETACH_KERNEL_DRIVER.
mod Strings
use rtl_tcp_andro.Base.{
  ℕ, zero, suc, ◌+◌, ◌-◌, ◌*◌, ◌/◌, ◌%◌, Bool, true, false, ◌&&◌, not, Option, none, some, List, [],
  ◌∷◌, ◌++◌, ◌==◌, ◌>>=◌, if◌then◌else◌, get_elem?,
}
use rtl_tcp_andro.Base.Int.{ℤ, pos, negsuc, is_negative, is_zero}

-- enum rtlsdr_tuner.
pub data RtlsdrTuner : Type 0 where
  unknown e4000 fc0012 fc0013 fc2580 r820t r828d : RtlsdrTuner

-- What is done to the dongle, to libusb and to the memory of the device.
pub data Action : Type 0 where
  reset_device init_baseband tuner_init close_handle exit_context free_device : Action
  i2c_repeater : Bool → Action
  gpio_output : (gpio : ℕ) → Action
  gpio_bit : (gpio : ℕ) → Bool → Action
  demod_write : (page addr val len : ℕ) → Action
  set_if_freq : ℕ → Action
  set_direct_sampling set_bias_tee : ℕ → Action

-- The answers: whether `malloc` succeeds, `libusb_init` and whether it leaves a context, whether
-- `libusb_get_device2` finds a device, whether `libusb_open2` leaves a handle, what
-- `libusb_claim_interface` and the dummy write return, the 256 bytes that stand in `buf` after the EEPROM
-- was read, and the byte that a tuner's register holds, before the reset and behind it.
pub record Usb : Type 0 where
  pub allocated : Bool
  pub init_status : ℤ
  pub has_context : Bool
  pub found_device : Bool
  pub opened : Bool
  pub claimed : ℤ
  pub dummy_write : ℤ
  pub eeprom : List ℕ
  pub read_reg : (i2c_addr reg : ℕ) → ℕ
  pub read_reg_after_reset : (i2c_addr reg : ℕ) → ℕ

-- What the fields of the new device are at the end.
pub record RtlsdrDev : Type 0 where
  pub rtl_xtal : ℕ
  pub tun_xtal : ℕ
  pub tuner_type : RtlsdrTuner
  pub manufact : List ℕ
  pub product : List ℕ
  pub force_bt : Bool

-- Every second byte from `i` on, `n` of them.
unfoldable pub read_chars : List ℕ → (i n : ℕ) → Option (List ℕ)
read_chars bytes i zero = some []
read_chars bytes i (suc n) =
    get_elem? bytes i >>= λ c. read_chars bytes (i + 2) n >>= λ rest. some (c ∷ rest)

-- How often `for (i = 2; i < len; i += 2)` runs.
abbrev pub char_count : ℕ → ℕ
char_count len = (len - 1) / 2

-- `get_string_descriptor`: the string, and the position behind it. Both bytes of the head are read.
unfoldable pub get_string_descriptor : (position : ℕ) → List ℕ → Option (List ℕ × ℕ)
unfolding read_chars
get_string_descriptor position bytes = get_elem? bytes position >>= λ len.
    get_elem? bytes (position + 1) >>= λ kind.
    read_chars bytes (position + 2) (char_count len) >>= λ str.
    some (str, position + 2 + 2 * char_count len)

-- `strcmp(a, b) == 0` for an array and a string constant: up to the first 0 of the array.
abbrev pub is_string : List ℕ → List ℕ → Bool
is_string [] [] = true
is_string [] (c ∷ cs) = false
is_string (d ∷ ds) [] = d == 0
is_string (d ∷ ds) (c ∷ cs) = (d == c) && is_string ds cs

-- "RTLSDRBlog" and "Blog V4".
abbrev pub rtlsdr_blog : List ℕ
rtlsdr_blog = 82 ∷ 84 ∷ 76 ∷ 83 ∷ 68 ∷ 82 ∷ 66 ∷ 108 ∷ 111 ∷ 103 ∷ []

abbrev pub blog_v4 : List ℕ
blog_v4 = 66 ∷ 108 ∷ 111 ∷ 103 ∷ 32 ∷ 86 ∷ 52 ∷ []

unfoldable pub rtlsdr_check_dongle_model :
    (manufact product manufact_check product_check : List ℕ) → Bool
rtlsdr_check_dongle_model manufact product manufact_check product_check =
    is_string manufact manufact_check && is_string product product_check

-- The tuners behind the reset of the tuner.
unfoldable pub probe_reset_tuners : Usb → List Action × RtlsdrTuner
probe_reset_tuners u =
    let reset = gpio_output 4 ∷ gpio_bit 4 true ∷ gpio_bit 4 false ∷ [] in
    if u.read_reg_after_reset 172 1 % 128 == 86
    then (reset, fc2580)
    else (if u.read_reg_after_reset 198 0 == 161
        then (reset ++ gpio_output 6 ∷ [], fc0012)
        else (reset, unknown))

-- The tuner, from E4K_CHECK_ADDR on, in the order of the checks.
unfoldable pub probe_tuner : Usb → List Action × RtlsdrTuner
unfolding probe_reset_tuners
probe_tuner u =
    let reset = probe_reset_tuners u in
    if u.read_reg 200 2 == 64
    then ([], e4000)
    else (if u.read_reg 198 0 == 163
        then ([], fc0013)
        else (if u.read_reg 52 0 == 105
            then ([], r820t)
            else (if u.read_reg 116 0 == 105 then ([], r828d) else reset)))

-- `if (dev->tuner->init) r = dev->tuner->init(dev)`: only the unknown tuner has none.
abbrev pub init_actions : RtlsdrTuner → List Action
init_actions unknown = []
init_actions _ = tuner_init ∷ []

abbrev pub r82xx_actions : List Action
r82xx_actions =
    demod_write 1 177 26 1
    ∷ demod_write 0 8 77 1
    ∷ set_if_freq 3_570_000
    ∷ demod_write 1 21 1 1
    ∷ []

-- The `switch` behind `found`.
abbrev pub tuner_actions : RtlsdrTuner → List Action
tuner_actions r828d = r82xx_actions
tuner_actions r820t = r82xx_actions
tuner_actions unknown = set_direct_sampling 1 ∷ []
tuner_actions _ = []

-- DEF_RTL_XTAL_FREQ and R828D_XTAL_FREQ.
abbrev pub def_rtl_xtal_freq : ℕ
def_rtl_xtal_freq = 28_800_000

abbrev pub r828d_xtal_freq : ℕ
r828d_xtal_freq = 16_000_000

abbrev pub tuner_xtal : RtlsdrTuner → (is_v4 : Bool) → ℕ
tuner_xtal r828d false = r828d_xtal_freq
tuner_xtal _ _ = def_rtl_xtal_freq

-- From the probes on; the bias tee is forced on by bit 1 of byte 7.
unfoldable pub set_up :
    Usb
    → (before : List Action) → (manufact product : List ℕ) → (byte7 : ℕ) → List Action × RtlsdrDev
unfolding probe_tuner rtlsdr_check_dongle_model
set_up u before manufact product byte7 =
    let (probes, tuner) = probe_tuner u in
    let force = byte7 / 2 % 2 == 0 in
    let v4 = rtlsdr_check_dongle_model manufact product rtlsdr_blog blog_v4 in
    let bias = if force then set_bias_tee 1 ∷ [] else [] in
    (
      before
          ++ (i2c_repeater true ∷ probes)
          ++ tuner_actions tuner
          ++ bias
          ++ init_actions tuner
          ++ i2c_repeater false ∷ [],
      record {
        rtl_xtal = def_rtl_xtal_freq;
        tun_xtal = tuner_xtal tuner v4;
        tuner_type = tuner;
        manufact = manufact;
        product = product;
        force_bt = force;
      },
    )

-- A run that came back: what it did, what it returned, and `*out_dev` where it is set.
pub record Open2Result : Type 0 where
  pub actions : List Action
  pub result : ℤ
  pub out_dev : Option RtlsdrDev

abbrev pub failed_open : List Action → ℤ → Open2Result
failed_open actions result = record { actions = actions; result = result; out_dev = none }

-- Behind the claim of the interface.
unfoldable pub read_and_set_up : Usb → Option Open2Result
unfolding get_string_descriptor set_up
read_and_set_up u =
    let reset = if is_negative u.dummy_write then reset_device ∷ [] else [] in
    get_string_descriptor 9 u.eeprom >>= λ (manufact, next).
    get_string_descriptor next u.eeprom >>= λ (product, after). get_elem? u.eeprom 7 >>= λ byte7.
    let (actions, dev) = set_up u (reset ++ init_baseband ∷ []) manufact product byte7 in
    some (record { actions = actions; result = pos 0; out_dev = some dev })

-- `rtlsdr_open2`. -ENOMEM is -12, LIBUSB_ERROR_OTHER is -99, and LIBUSB_SUCCESS 0. The two returns behind
-- `libusb_init` free nothing. Without a handle `libusb_kernel_driver_active` follows a NULL pointer.
unfoldable pub rtlsdr_open2 : Usb → Option Open2Result
unfolding read_and_set_up
rtlsdr_open2 u =
    if not u.allocated
    then some (failed_open [] (negsuc 11))
    else (if not (is_zero u.init_status)
        then some (failed_open [] u.init_status)
        else (if not u.has_context
            then some (failed_open [] (negsuc 98))
            else (if not u.found_device
                then some (failed_open (exit_context ∷ free_device ∷ []) (negsuc 0))
                else (if not u.opened
                    then none
                    else (if is_negative u.claimed
                        then some
                            (failed_open (close_handle ∷ exit_context ∷ free_device ∷ []) u.claimed)
                        else read_and_set_up u)))))
