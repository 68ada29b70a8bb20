-- ===== src/Sanity/Bounds.antt =====
-- What the checks of rectangles and boxes accept.
use remote_virtio_gpu.Prelude.{ℕ, ◌+◌, ◌*◌, ◌≤◌, ◌<◌, ◌≡◌, ◌↔◌, arith, mul64, true, u32_mod}
use remote_virtio_gpu.Virtio.{Rect, Box}
use remote_virtio_gpu.Sanity.{
  int32_max, sanity_check_bounds, sanity_check_resource_rect, sanity_check_resource_box,
}

product_bound : (a b : ℕ) → a ≤ int32_max → b ≤ int32_max → a * b ≤ int32_max * int32_max
product_bound a b h k = grind arith

no_wrap : (a b : ℕ) → a ≤ int32_max → b ≤ int32_max → mul64 (mul64 a b) 4 ≡ 4 * (a * b)
no_wrap a b h k = omega (arith, product_bound a b h k)

side_bound : (a b : ℕ) → 0 < b → 4 * (a * b) ≤ int32_max → a ≤ int32_max
side_bound a b h k = grind arith

side_bound' : (a b : ℕ) → 0 < a → 4 * (a * b) ≤ int32_max → b ≤ int32_max
side_bound' a b h k = grind arith

-- `sanity_check_bounds` accepts exactly the rectangles whose corner and sides fit in an `int32_t`,
-- whose sides are not 0, and whose pixels of 4 bytes fill no more than INT32_MAX bytes; the product
-- that it tests does not wrap.
pub sanity_check_bounds_iff :
    (x y width height : ℕ)
    → (sanity_check_bounds x y width height ≡ true) ↔ (
        (x ≤ int32_max)
        × (y ≤ int32_max)
        × (0 < width)
        × (0 < height)
        × (4 * (height * width) ≤ int32_max))
unfolding sanity_check_bounds
sanity_check_bounds_iff x y width height = (
  λ h. ground (arith, no_wrap height width),
  λ h. ground (arith, no_wrap height width, side_bound height width, side_bound' height width),
)

-- `sanity_check_resource_rect` accepts exactly the rectangles that lie inside the resource.
pub sanity_check_resource_rect_iff :
    (r : Rect) (width height : ℕ)
    → r.x < u32_mod
    → r.y < u32_mod
    → r.width < u32_mod
    → r.height < u32_mod
    → (sanity_check_resource_rect r width height ≡ true)
      ↔ ((r.x + r.width ≤ width) × (r.y + r.height ≤ height))
unfolding sanity_check_resource_rect
sanity_check_resource_rect_iff r width height a b c d = ground arith

-- `sanity_check_resource_box` accepts exactly the boxes whose width and height lie inside the
-- resource; it does not look at the depth.
pub sanity_check_resource_box_iff :
    (b : Box) (width height depth : ℕ)
    → b.x < u32_mod
    → b.y < u32_mod
    → b.w < u32_mod
    → b.h < u32_mod
    → (sanity_check_resource_box b width height depth ≡ true)
      ↔ ((b.x + b.w ≤ width) × (b.y + b.h ≤ height))
unfolding sanity_check_resource_box
sanity_check_resource_box_iff b width height depth h k m n = ground arith
