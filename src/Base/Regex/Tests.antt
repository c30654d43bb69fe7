-- ===== src/Base/Regex/Tests.antt =====
-- Runs of the engine on small patterns.
use chaotic_next.Base.{◌≡◌, refl, codes, some, is_space}
use chaotic_next.Base.Regex.{
  ◌⋅◌, either, start, end, lit, group, digits, opt, exec_group, star, lazy, dot,
}

-- `^a(.*?)b(.*)$`
lazy_then_greedy :
    exec_group 1
      (start ⋅ lit (codes "a") ⋅ group 1 (lazy dot) ⋅ lit (codes "b") ⋅ group 2 (star dot) ⋅ end)
      (codes "axxbyyb")
    ≡ some (codes "xx")
unfolding exec_group is_space
lazy_then_greedy = refl

python_dir :
    exec_group 1
      (either start (lit (codes "/"))
        ⋅ lit (codes "usr/lib/python")
        ⋅ group 1 (lit (codes "3.") ⋅ digits ⋅ opt (lit (codes ".") ⋅ digits))
        ⋅ either (lit (codes "/")) end)
      (codes "/usr/lib/python3.12/site-packages/x")
    ≡ some (codes "3.12")
unfolding exec_group is_space
python_dir = refl
