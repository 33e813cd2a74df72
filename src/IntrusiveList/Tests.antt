-- ===== src/IntrusiveList/Tests.antt =====
-- A list of include/common/intrusive_list.h with the header 1 and the tail 2.
use sofa_bolt_cpp.Base.{◌≡◌, refl, some, [], ◌∷◌}
use sofa_bolt_cpp.IntrusiveList.{Links, IntrusiveList, new_list, push_front, remove}
use sofa_bolt_cpp.IntrusiveList.Calls.{Holds, after_push_front, after_removing, push_front-Holds}
use sofa_bolt_cpp.IntrusiveList.Removal.{remove-Holds}

abbrev no_links : Links
no_links = record { prev = λ x. 0; next = λ x. 0 }

abbrev empty : IntrusiveList
empty = new_list 1 2 no_links

empty-Holds : Holds empty []
unfolding new_list
empty-Holds = record {
  chain = (refl, refl);
  distinct = (refl, (refl, tt), (refl, tt, tt));
  counted = refl;
}

push_front-Holds_example :
    (push_front 1 3 empty ≡ some (3, after_push_front empty [] 3))
    × Holds (after_push_front empty [] 3) (3 ∷ [])
unfolding new_list
push_front-Holds_example = push_front-Holds empty [] 3 0 empty-Holds refl refl (refl, (refl, tt))

one-Holds : Holds (after_push_front empty [] 3) (3 ∷ [])
unfolding new_list
one-Holds = (push_front-Holds empty [] 3 0 empty-Holds refl refl (refl, (refl, tt))).1

remove-Holds_example :
    (remove 1 3 (after_push_front empty [] 3)
      ≡ some (3, after_removing (after_push_front empty [] 3) [] 3 []))
    × Holds (after_removing (after_push_front empty [] 3) [] 3 []) []
remove-Holds_example = remove-Holds (after_push_front empty [] 3) [] 3 [] 0 one-Holds
