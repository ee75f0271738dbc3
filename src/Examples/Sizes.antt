-- ===== src/Examples/Sizes.antt =====
-- The witnesses of the theorems on the sizes, the descriptors and the policies of gralloc.
use platform_hardware_qcom_d.Base.{true, false, ◌≡◌, ◌≢◌, ◌⊎◌, arith, refl, [], ◌∷◌, ◌↔◌, map}
use Prim.Native.Nat.{◌∣◌}
use platform_hardware_qcom_d.Gralloc.{rgba_8888, BufferInfo}
use platform_hardware_qcom_d.Gralloc.Size.{get_data_alignment, get_size}
use platform_hardware_qcom_d.Gralloc.Alignment.{dvd-get_size}
use platform_hardware_qcom_d.Gralloc.Descriptor.{
  no_error, BufferDescriptorInfo, BufferDescriptor, new_descriptor, encode, decode, FitsWords,
  decode-encode,
}
use platform_hardware_qcom_d.Gralloc.Allocator.{
  check_for_buffer_sharing, descriptor_heap, descriptor_size, get_ion_heap_info, heap_code,
}
use platform_hardware_qcom_d.Gralloc.Policy.{get_ion_heap_info_lem}
use platform_hardware_qcom_d.Gralloc.Sharing.{AllSame, Picks, check_for_buffer_sharing_lem}
use platform_hardware_qcom_d.Examples.Buffers.{no_usage, test_env, test_headers}

-- An image of 30 by 20 in RGBA_8888, in two layers.
abbrev picture : BufferInfo
picture = record { width = 30; height = 20; format = rgba_8888; layer_count = 2; usage = no_usage }

dvd-get_size_example :
    get_data_alignment test_env rgba_8888 no_usage ∣ get_size test_env picture 32 32
dvd-get_size_example = dvd-get_size test_env picture 32 32 (12, omega arith, refl)

abbrev request : BufferDescriptorInfo
request = record { width = 30; height = 20; layer_count = 2; format = 1; usage = 8589934592 }

decode-encode_example : decode (new_descriptor 7) (encode request) ≡ (
  no_error,
  record { width = 30; height = 20; format = 1; layer_count = 2; usage = 8589934592; id = 7 },
)
unfolding FitsWords new_descriptor
decode-encode_example = decode-encode (new_descriptor 7) request (omega arith, omega arith)

abbrev small_descriptor : BufferDescriptor
small_descriptor = record {
  width = 30;
  height = 20;
  format = 1;
  layer_count = 1;
  usage = 0;
  id = 1;
}

abbrev large_descriptor : BufferDescriptor
large_descriptor = record {
  width = 300;
  height = 200;
  format = 1;
  layer_count = 1;
  usage = 0;
  id = 2;
}

check_for_buffer_sharing_lem_example :
    ((((check_for_buffer_sharing test_headers test_env false
          (small_descriptor ∷ large_descriptor ∷ [])).0)
        ≡ true)
      ↔ AllSame
          (descriptor_heap test_headers test_env false small_descriptor)
          (map (descriptor_heap test_headers test_env false) (large_descriptor ∷ [])))
    × (((check_for_buffer_sharing test_headers test_env false
            (small_descriptor ∷ large_descriptor ∷ [])).0)
          ≡ true
        → Picks 0
            (map
              (descriptor_size test_headers test_env false)
              (small_descriptor ∷ large_descriptor ∷ []))
            ((check_for_buffer_sharing test_headers test_env false
              (small_descriptor ∷ large_descriptor ∷ [])).1))
check_for_buffer_sharing_lem_example =
    check_for_buffer_sharing_lem test_headers test_env false small_descriptor
      (large_descriptor ∷ []) ((omega arith, omega arith), ((omega arith, omega arith), tt))

get_ion_heap_info_lem_example :
    let info =
      get_ion_heap_info test_headers true false (record no_usage { gralloc_protected = true }) in
    (info.secure_buffer ≡ true)
    × (heap_code info.heap_id ≢ 0)
    × (false ≡ false
        → ((true ≡ true) × (info.heap_id.system_heap ≡ false) × (info.heap_id.adsp_heap ≡ false))
          ⊎ ((true ≡ false) × (heap_code info.heap_id ≡ 16)))
get_ion_heap_info_lem_example =
    get_ion_heap_info_lem test_headers true false (record no_usage { gralloc_protected = true })
      (λ e. cc)
