-- ===== src/Routes/Tests.antt =====
-- Runs of the routes of templates, and the theorem on their names.
use xtemplate.Prelude.{◌≡◌, refl, none, some, Text, codes}
use xtemplate.Routes.{buffering, flushing, template_route}
use xtemplate.Routes.Laws.{NamedRoute, route_of_name}

abbrev html : Text
html = codes ".html"

files_run :
    (template_route html (codes "/index.html") (codes "/index.html") 1
      ≡ some (codes "GET /", buffering 1))
    × (template_route html (codes "/todos.html") (codes "/todos.html") 1
        ≡ some (codes "GET /todos", buffering 1))
    × (template_route html (codes "/admin/index.html") (codes "/admin/index.html") 1
        ≡ some (codes "GET /admin", buffering 1))
    × (template_route html (codes "/admin/index{$}.html") (codes "/admin/index{$}.html") 1
        ≡ some (codes "GET /admin/{$}", buffering 1))
    × (template_route html (codes "/shared/.head.html") (codes "/shared/.head.html") 1 ≡ none)
unfolding template_route
files_run = (refl, refl, refl, refl, refl)

names_run :
    (template_route html (codes "/a.html") (codes "DELETE /contact/{id}") 1
      ≡ some (codes "DELETE /contact/{id}", buffering 1))
    × (template_route html (codes "/a.html") (codes "nav") 1 ≡ none)
unfolding template_route
names_run = (refl, refl)

route_of_name_example : NamedRoute 7 (codes "SSE /events") (codes "GET /events") (flushing 7)
unfolding template_route
route_of_name_example = route_of_name html (codes "/a.html") (codes "SSE /events") 7 (λ e. cc) refl
