-- ===== src/Http/Router/GitScope.antt =====
-- What a request to the git service over HTTP can reach: the directory of the identity that it is
-- bound to.
