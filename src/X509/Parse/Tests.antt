-- ===== src/X509/Parse/Tests.antt =====
-- A certificate with an RSA key of one byte, valid on the first day of 1970.
use xbox360_tls.Base.{◌≡◌, refl, true, [], ◌∷◌, drop, arith}
use xbox360_tls.Bytes.{Bytes, AreBytes, span, bytes_equal, ok}
use xbox360_tls.X509.Der.{der_tlv, der_length}
use xbox360_tls.X509.Time.{parse_asn1_time, asn1_year, dec2, days_before_year, days_before_month}
use xbox360_tls.X509.Certificate.{
  X509CertificateView, empty_view, public_key_rsa, parse_validity, oid_eq, key_kind, parse_spki,
}
use xbox360_tls.X509.Extensions.{parse_extensions_loop, only_element}
use xbox360_tls.X509.Extensions.Loops.{parse_extensions_loop-enough}
use xbox360_tls.X509.Parse.{skip_version, read_names, tail_loop, parse_tbs, x509_parse_certificate}
use xbox360_tls.X509.Parse.Accepted.{IsCertificate, x509_parse_certificate-IsCertificate}

abbrev wire : Bytes
wire =
    48 ∷ 62 ∷ 48 ∷ 60 ∷ 2 ∷ 1 ∷ 1 ∷ 48 ∷ 0 ∷ 48 ∷ 0 ∷ 48 ∷ 30 ∷ 23 ∷ 13 ∷ 55 ∷ 48 ∷ 48 ∷ 49 ∷ 48
    ∷ 49 ∷ 48 ∷ 48 ∷ 48 ∷ 48 ∷ 48 ∷ 48 ∷ 90 ∷ 23 ∷ 13 ∷ 55 ∷ 48 ∷ 48 ∷ 49 ∷ 48 ∷ 50 ∷ 48 ∷ 48 ∷ 48
    ∷ 48 ∷ 48 ∷ 48 ∷ 90 ∷ 48 ∷ 0 ∷ 48 ∷ 17 ∷ 48 ∷ 11 ∷ 6 ∷ 9 ∷ 42 ∷ 134 ∷ 72 ∷ 134 ∷ 247 ∷ 13 ∷ 1
    ∷ 1 ∷ 1 ∷ 3 ∷ 2 ∷ 0 ∷ 5 ∷ []

abbrev view : X509CertificateView
view = record empty_view {
  der = span wire;
  tbs_certificate = span (drop 2 wire);
  issuer_name = span (0x30 ∷ 0 ∷ []);
  subject_name = span (0x30 ∷ 0 ∷ []);
  public_key_kind = public_key_rsa;
  validity_present = true;
  not_before = 0;
  not_after = 86400;
  subject_public_key_info = span (drop 45 wire);
  subject_public_key_bits = span (5 ∷ []);
}

parsed : x509_parse_certificate (span wire) ≡ ok view
unfolding x509_parse_certificate parse_tbs skip_version read_names tail_loop only_element der_tlv
    der_length parse_validity parse_spki key_kind oid_eq bytes_equal parse_asn1_time asn1_year dec2
    days_before_year days_before_month
parsed = refl

wire_bytes : AreBytes wire
wire_bytes = (
  omega arith,
  (
    omega arith,
    (
      omega arith,
      (
        omega arith,
        (
          omega arith,
          (
            omega arith,
            (
              omega arith,
              (
                omega arith,
                (
                  omega arith,
                  (
                    omega arith,
                    (
                      omega arith,
                      (
                        omega arith,
                        (
                          omega arith,
                          (
                            omega arith,
                            (
                              omega arith,
                              (
                                omega arith,
                                (
                                  omega arith,
                                  (
                                    omega arith,
                                    (
                                      omega arith,
                                      (
                                        omega arith,
                                        (
                                          omega arith,
                                          (
                                            omega arith,
                                            (
                                              omega arith,
                                              (
                                                omega arith,
                                                (
                                                  omega arith,
                                                  (
                                                    omega arith,
                                                    (
                                                      omega arith,
                                                      (
                                                        omega arith,
                                                        (
                                                          omega arith,
                                                          (
                                                            omega arith,
                                                            (
                                                            omega arith,
                                                            (
                                                            omega arith,
                                                            (
                                                            omega arith,
                                                            (
                                                            omega arith,
                                                            (
                                                            omega arith,
                                                            (
                                                            omega arith,
                                                            (
                                                            omega arith,
                                                            (
                                                            omega arith,
                                                            (
                                                            omega arith,
                                                            (
                                                            omega arith,
                                                            (
                                                            omega arith,
                                                            (
                                                            omega arith,
                                                            (
                                                            omega arith,
                                                            (
                                                            omega arith,
                                                            (
                                                            omega arith,
                                                            (
                                                            omega arith,
                                                            (
                                                            omega arith,
                                                            (
                                                            omega arith,
                                                            (
                                                            omega arith,
                                                            (
                                                            omega arith,
                                                            (
                                                            omega arith,
                                                            (
                                                            omega arith,
                                                            (
                                                            omega arith,
                                                            (
                                                            omega arith,
                                                            (
                                                            omega arith,
                                                            (
                                                            omega arith,
                                                            (
                                                            omega arith,
                                                            (
                                                            omega arith,
                                                            (
                                                            omega arith,
                                                            (
                                                            omega arith,
                                                            (
                                                            omega arith,
                                                            (
                                                            omega arith,
                                                            (omega arith, (omega arith, tt)),
                                                            ),
                                                            ),
                                                            ),
                                                            ),
                                                            ),
                                                            ),
                                                            ),
                                                            ),
                                                            ),
                                                            ),
                                                            ),
                                                            ),
                                                            ),
                                                            ),
                                                            ),
                                                            ),
                                                            ),
                                                            ),
                                                            ),
                                                            ),
                                                            ),
                                                            ),
                                                            ),
                                                            ),
                                                            ),
                                                            ),
                                                            ),
                                                            ),
                                                            ),
                                                            ),
                                                            ),
                                                            ),
                                                          ),
                                                        ),
                                                      ),
                                                    ),
                                                  ),
                                                ),
                                              ),
                                            ),
                                          ),
                                        ),
                                      ),
                                    ),
                                  ),
                                ),
                              ),
                            ),
                          ),
                        ),
                      ),
                    ),
                  ),
                ),
              ),
            ),
          ),
        ),
      ),
    ),
  ),
)

x509_parse_certificate-IsCertificate_example : IsCertificate (span wire) view
x509_parse_certificate-IsCertificate_example =
    x509_parse_certificate-IsCertificate (span wire) wire_bytes parsed

parse_extensions_loop-enough_example :
    parse_extensions_loop 9 (span (0x30 ∷ 0 ∷ [])) 0 empty_view
    ≡ parse_extensions_loop 2 (span (0x30 ∷ 0 ∷ [])) 0 empty_view
parse_extensions_loop-enough_example =
    parse_extensions_loop-enough 2 9 (span (0x30 ∷ 0 ∷ [])) 0 empty_view (omega arith) (omega arith)
